-- ===== src/Launcher.antt =====
-- backend/src/main.py and backend/src/application/handler_settings.py: the configuration of the
-- launcher and its exit codes. A value of the YAML file is a JSON value. `LauncherConfigError` is a
-- `runtime_error`. The parsing of the arguments, signals and log lines are left out.
pub mod Chosen
pub mod Launched
use linux_rag_t.Prelude.{
  ◌==◌, contains, nonempty, truthy, if◌then◌else◌, strip, lower, ℕ, ◌<>◌, none, some, ok, err, true,
  false, [], ◌∷◌, Bool, Error, Option, Result, String, or_empty, other_error, runtime_error, ◌>>=◌,
}
use linux_rag_t.Json.{
  is_true, no_keys, lookup, Dict, Json, Codec, int_of, or_json, type_error, null, text, object,
  array, number, real, boolean,
}

pub record LauncherConfig : Type 0 where
  pub config_path : String
  pub socket_path : String
  pub weaviate_url : String
  pub weaviate_grpc_port : ℕ
  pub ollama_url : String
  pub phoenix_url : String
  pub enable_trace : Bool
  pub log_level : String

-- The arguments of the command line.
pub record Arguments : Type 0 where
  pub config : String
  pub socket : Option String
  pub weaviate_url : Option String
  pub weaviate_grpc_port : Option ℕ
  pub ollama_url : Option String
  pub phoenix_url : Option String
  pub trace : Option Bool
  pub log_level : Option String

pub data ConfigText : Type 0 where
  missing unreadable : ConfigText
  content : String → ConfigText

-- How the server ends.
pub data ServerEnd : Type 0 where
  stopped cancelled interrupted : ServerEnd
  raised : Error → ServerEnd

-- `expanduser`, the file, `yaml.safe_load` (`none` where it raises), the environment and
-- `str.upper`.
pub record Host : Type 0 where
  pub codec : Codec
  pub expand : String → String
  pub read : String → ConfigText
  pub safe_load : String → Option Json
  pub environment : String → Option String
  pub upper : String → String
  pub working_directory : String

abbrev pub config_error : {A : Type 0} → String → Result A
config_error message = err (runtime_error message)

-- `raw_data.get("backend")`, with the root in its place if there is none.
abbrev pub backend_of : Dict → Option Json → Result Dict
backend_of root none = ok root
backend_of root (some null) = ok root
backend_of root (some (object p)) = ok p
backend_of root (some _) = config_error "Backend configuration must be a mapping."

-- A value that is false, such as an empty list, counts as an empty mapping.
abbrev pub root_of : Json → Result Dict
root_of (object p) = backend_of p (lookup "backend" p)
root_of j =
    if is_true j
    then config_error "Configuration file must contain a mapping at the root."
    else ok no_keys

abbrev pub parsed_settings : Option Json → Result Dict
parsed_settings none = err (other_error "YAMLError")
parsed_settings (some j) = root_of j

module _ (h : Host) where
  abbrev pub settings_of : String → ConfigText → Result Dict
  settings_of path missing = config_error ("Configuration file " <> path <> " not found")
  settings_of path unreadable = config_error ("Unable to read configuration file " <> path)
  settings_of path (content s) = parsed_settings (h.safe_load s)

  unfoldable pub load_backend_settings : String → Result Dict
  load_backend_settings path = settings_of path (h.read path)

  abbrev pub default_or_error : String → Option String → Result String
  default_or_error name (some default) = ok default
  default_or_error name none =
      config_error ("Missing required '" <> name <> "' setting in --config or CLI overrides.")

  -- A list or a mapping cannot be looked up in a set.
  abbrev pub candidate_value : String → Json → Option String → Result String
  candidate_value name null default = default_or_error name default
  candidate_value name (text s) default = if nonempty s then ok s else default_or_error name default
  candidate_value name (array l) default = err type_error
  candidate_value name (object p) default = err type_error
  candidate_value name j default = ok (h.codec.str j)

  unfoldable pub coalesce_value : String → Option String → Dict → Option String → Result String
  coalesce_value name cli config default =
      if truthy cli
      then ok (or_empty cli)
      else candidate_value name (or_json (lookup name config) null) default

  abbrev pub invalid_int : String → Json → Result ℕ → Result ℕ
  invalid_int name j (ok n) = ok n
  invalid_int name j (err e) =
      config_error ("Invalid integer value for '" <> name <> "': " <> h.codec.repr j)

  abbrev pub candidate_int : String → Json → ℕ → Result ℕ
  candidate_int name null default = ok default
  candidate_int name (text s) default =
      if nonempty s then invalid_int name (text s) (int_of h.codec (text s)) else ok default
  candidate_int name j default = invalid_int name j (int_of h.codec j)

  unfoldable pub coalesce_int : String → Option ℕ → Dict → ℕ → Result ℕ
  coalesce_int name (some n) config default = ok n
  coalesce_int name none config default =
      candidate_int name (or_json (lookup name config) null) default

  abbrev pub invalid_bool : String → Json → Result Bool
  invalid_bool name j =
      config_error ("Invalid boolean value for '" <> name <> "': " <> h.codec.repr j)

  abbrev pub candidate_bool : String → Json → Bool → Result Bool
  candidate_bool name (boolean b) default = ok b
  candidate_bool name (text s) default =
      let lowered = lower (strip s) in
      if contains ("1" ∷ "true" ∷ "yes" ∷ "on" ∷ []) lowered
      then ok true
      else if contains ("0" ∷ "false" ∷ "no" ∷ "off" ∷ []) lowered
      then ok false
      else invalid_bool name (text s)
  candidate_bool name null default = ok default
  candidate_bool name j default = invalid_bool name j

  unfoldable pub coalesce_bool : String → Option Bool → Dict → Bool → Result Bool
  unfolding lower strip
  coalesce_bool name (some b) config default = ok b
  coalesce_bool name none config default =
      candidate_bool name (or_json (lookup name config) null) default

  unfoldable pub build_launcher_config : Arguments → Result LauncherConfig
  build_launcher_config args = do
    settings ← load_backend_settings (h.expand args.config)
    socket ← coalesce_value "socket" args.socket settings none
    weaviate_url ← coalesce_value "weaviate_url" args.weaviate_url settings none
    port ← coalesce_int "weaviate_grpc_port" args.weaviate_grpc_port settings 50051
    ollama_url ← coalesce_value "ollama_url" args.ollama_url settings none
    phoenix_url ← coalesce_value "phoenix_url" args.phoenix_url settings none
    log_level ← coalesce_value "log_level" args.log_level settings (some "INFO")
    trace ← coalesce_bool "trace" args.trace settings false
    ok (record {
      config_path = h.expand args.config;
      socket_path = h.expand socket;
      weaviate_url = weaviate_url;
      weaviate_grpc_port = port;
      ollama_url = ollama_url;
      phoenix_url = phoenix_url;
      enable_trace = trace;
      log_level = h.upper log_level;
    })

-- `HandlerSettings`
pub record HandlerSettings : Type 0 where
  pub weaviate_url : String
  pub weaviate_grpc_port : ℕ
  pub ollama_url : String
  pub phoenix_url : Option String
  pub embedding_model : String
  pub completion_model : String
  pub data_dir : String
  pub disable_bootstrap : Bool

abbrev pub get_env : Option String → String → String
get_env none default = default
get_env (some s) default = s

-- What a run of `main` comes to: its exit code or what it raises, what was served, and whether the
-- trace controller is on at the end.
pub record Exit : Type 0 where
  pub code : Result ℕ
  pub served : Option (LauncherConfig × HandlerSettings)
  pub tracing : Bool

abbrev pub exit_code : ServerEnd → Result ℕ
exit_code stopped = ok 0
exit_code cancelled = ok 1
exit_code interrupted = ok 0
exit_code (raised e) = err e

-- The `finally` clause.
abbrev pub disable_trace : Bool → Bool
disable_trace enabled = if enabled then false else enabled

module _ (h : Host) where
  -- `_default_data_dir`
  unfoldable pub default_data_dir : String
  default_data_dir =
      if truthy (h.environment "XDG_DATA_HOME")
      then or_empty (h.environment "XDG_DATA_HOME") <> "/ragcli"
      else if truthy (h.environment "RAG_BACKEND_DATA_HOME")
      then or_empty (h.environment "RAG_BACKEND_DATA_HOME")
      else h.working_directory <> "/.ragcli"

  unfoldable pub load_handler_settings : Result HandlerSettings
  unfolding default_data_dir
  load_handler_settings = do
    port ← h.codec.parse_int (get_env (h.environment "RAG_BACKEND_WEAVIATE_GRPC_PORT") "50051")
    ok (record {
      weaviate_url = get_env (h.environment "RAG_BACKEND_WEAVIATE_URL") "http://127.0.0.1:8080";
      weaviate_grpc_port = port;
      ollama_url = get_env (h.environment "RAG_BACKEND_OLLAMA_URL") "http://127.0.0.1:11434";
      phoenix_url = h.environment "RAG_BACKEND_PHOENIX_URL";
      embedding_model = get_env (h.environment "RAG_BACKEND_EMBED_MODEL") "embeddinggemma:latest";
      completion_model = get_env (h.environment "RAG_BACKEND_COMPLETION_MODEL") "gemma3:1b";
      data_dir = default_data_dir;
      disable_bootstrap = get_env (h.environment "RAG_BACKEND_DISABLE_BOOTSTRAP") "" == "1";
    })

  unfoldable pub handler_settings_from_launcher : LauncherConfig → Result HandlerSettings
  handler_settings_from_launcher config = do
    base ← load_handler_settings
    ok (record base {
      weaviate_url = config.weaviate_url;
      weaviate_grpc_port = config.weaviate_grpc_port;
      ollama_url = config.ollama_url;
      phoenix_url = some config.phoenix_url;
    })

  abbrev pub not_served : Result ℕ → Exit
  not_served code = record { code = code; served = none; tracing = false }

  module _ (serve : LauncherConfig → HandlerSettings → ServerEnd) where
    abbrev pub serve_with : LauncherConfig → Result HandlerSettings → Exit
    serve_with config (err e) = not_served (err e)
    serve_with config (ok settings) = record {
      code = exit_code (serve config settings);
      served = some (config, settings);
      tracing = disable_trace config.enable_trace;
    }

    abbrev pub launch : Result LauncherConfig → Exit
    launch (err (runtime_error message)) = not_served (ok 2)
    launch (err e) = not_served (err e)
    launch (ok config) = serve_with config (handler_settings_from_launcher config)

    unfoldable pub main : Arguments → Exit
    main args = launch (build_launcher_config h args)
