-- ===== src/Launcher/Launched.antt =====
-- Every run of `main`.
use linux_rag_t.Prelude.{
  ℕ, ◌⊎◌, none, some, ok, err, true, false, Bool, Error, Result, String, runtime_error, ◌≡◌,
}
use linux_rag_t.Launcher.{
  stopped, cancelled, interrupted, raised, Arguments, Exit, HandlerSettings, Host, LauncherConfig,
  ServerEnd, build_launcher_config, handler_settings_from_launcher,
}
use linux_rag_t.Launcher.Chosen.{IsChosen}

-- A `LauncherConfigError`.
abbrev pub is_config_error : Error → Bool
is_config_error (runtime_error message) = true
is_config_error _ = false

-- How `main` ends without a server: with 2 for a configuration error, and with the exception of the
-- configuration or of the handlers' settings otherwise.
pub data Failure (h : Host) (args : Arguments) : Result ℕ → Type 0 where
  config_refused :
      (message : String)
      → build_launcher_config h args ≡ err (runtime_error message)
      → Failure h args (ok 2)
  config_raised :
      (e : Error)
      → build_launcher_config h args ≡ err e
      → is_config_error e ≡ false
      → Failure h args (err e)
  settings_raised :
      (config : LauncherConfig) (e : Error)
      → build_launcher_config h args ≡ ok config
      → handler_settings_from_launcher h config ≡ err e
      → Failure h args (err e)

pub record Refused (h : Host) (args : Arguments) (x : Exit) : Type 0 where
  pub served : x.served ≡ none
  pub code : Failure h args x.code

-- The exit code for each end of the server, or the exception that it raised.
pub data EndsWith : ServerEnd → Result ℕ → Type 0 where
  on_stop : EndsWith stopped (ok 0)
  on_cancel : EndsWith cancelled (ok 1)
  on_interrupt : EndsWith interrupted (ok 0)
  on_error : {e : Error} → EndsWith (raised e) (err e)

-- A server ran on a configuration that was chosen by the rules, with the handlers' addresses from it.
pub record Launched (h : Host) (serve : LauncherConfig → HandlerSettings → ServerEnd)
    (args : Arguments) (x : Exit) : Type 0 where
  pub config : LauncherConfig
  pub settings : HandlerSettings
  pub served : x.served ≡ some (config, settings)
  pub code : EndsWith (serve config settings) x.code
  pub built : build_launcher_config h args ≡ ok config
  pub chosen : IsChosen h args config
  pub weaviate : settings.weaviate_url ≡ config.weaviate_url
  pub ollama : settings.ollama_url ≡ config.ollama_url
  pub phoenix : settings.phoenix_url ≡ some config.phoenix_url

module _ (h : Host) (serve : LauncherConfig → HandlerSettings → ServerEnd) (args : Arguments) where
  abbrev Cases : Exit → Type 0
  Cases x = (Refused h args x ⊎ Launched h serve args x) × (x.tracing ≡ false)
