-- ===== src/Launcher/Chosen.antt =====
-- Where the settings of a server that is started come from.
use linux_rag_t.Prelude.{
  ok_injective, ap, sym, nonempty, not, truthy, refl, none, some, inl, inr, ok, true, false, Bool,
  Bool-cases, Option, String, or_empty, ◌≡◌, bind-eq-ok,
}
use linux_rag_t.Launcher.{
  Arguments, LauncherConfig, build_launcher_config, coalesce_bool, coalesce_int,
  load_backend_settings, Host, candidate_value, coalesce_value, default_or_error,
}
use mathlib.Core.Path.{subst}
use linux_rag_t.Json.{
  lookup, Dict, Json, or_json, text_of, null, text, object, array, number, real, boolean,
}

-- Null or the empty text.
abbrev pub is_blank : Json → Bool
is_blank null = true
is_blank (text s) = not (nonempty s)
is_blank _ = false

-- A setting is the argument of the command line, unless that is missing or empty; then the value of
-- the file, as a text, unless that is missing or blank; then the default.
pub data Chosen (h : Host) (name : String) (cli : Option String) (config : Dict)
    (default : Option String) (value : String) : Type 0 where
  from_cli : truthy cli ≡ true → or_empty cli ≡ value → Chosen h name cli config default value
  from_file :
      truthy cli ≡ false
      → is_blank (or_json (lookup name config) null) ≡ false
      → text_of h.codec (or_json (lookup name config) null) ≡ value
      → Chosen h name cli config default value
  from_default :
      truthy cli ≡ false
      → is_blank (or_json (lookup name config) null) ≡ true
      → default ≡ some value
      → Chosen h name cli config default value

module _ (h : Host) (name : String) where
  default_or_error-eq-ok :
      (default : Option String) (value : String)
      → default_or_error h name default ≡ ok value
      → default ≡ some value
  default_or_error-eq-ok none value k = cc
  default_or_error-eq-ok (some d) value k = cc

  candidate-Chosen :
      (cli : Option String) (config : Dict) (default : Option String) (value : String) (j : Json)
      → truthy cli ≡ false
      → or_json (lookup name config) null ≡ j
      → candidate_value h name j default ≡ ok value
      → Chosen h name cli config default value
  candidate-Chosen cli config default value null e at k =
      from_default e (rw at refl) (default_or_error-eq-ok default value k)
  candidate-Chosen cli config default value (text String.[]) e at k =
      from_default e (rw at refl) (default_or_error-eq-ok default value k)
  candidate-Chosen cli config default value (text (String.◌∷◌ c s)) e at k =
      from_file e (rw at refl) (rw at (cc))
  candidate-Chosen cli config default value (array l) e at k = cc
  candidate-Chosen cli config default value (object p) e at k = cc
  candidate-Chosen cli config default value (number n) e at k =
      from_file e (rw at refl) (rw at (cc))
  candidate-Chosen cli config default value (real x) e at k = from_file e (rw at refl) (rw at (cc))
  candidate-Chosen cli config default value (boolean b) e at k =
      from_file e (rw at refl) (rw at (cc))

  coalesce_value-Chosen :
      (cli : Option String) (config : Dict) (default : Option String) (value : String)
      → coalesce_value h name cli config default ≡ ok value
      → Chosen h name cli config default value
  unfolding coalesce_value
  coalesce_value-Chosen cli config default value k = elim (Bool-cases (truthy cli)) [
    | inl e ↦ from_cli e (ok_injective _ _ (rw e at k))
    | inr e ↦
        candidate-Chosen cli config default value (or_json (lookup name config) null) e refl
          (rw e at k)
  ]

-- The texts of a configuration that was built, and where the file's part of them stands.
pub record IsChosen (h : Host) (args : Arguments) (cfg : LauncherConfig) : Type 0 where
  pub file : Dict
  pub loaded : load_backend_settings h (h.expand args.config) ≡ ok file
  pub socket : String
  pub socket_path : cfg.socket_path ≡ h.expand socket
  pub socket_chosen : Chosen h "socket" args.socket file none socket
  pub weaviate : Chosen h "weaviate_url" args.weaviate_url file none cfg.weaviate_url
  pub ollama : Chosen h "ollama_url" args.ollama_url file none cfg.ollama_url
  pub phoenix : Chosen h "phoenix_url" args.phoenix_url file none cfg.phoenix_url

module _ (h : Host) (args : Arguments) (cfg : LauncherConfig) where
  pub build-IsChosen : build_launcher_config h args ≡ ok cfg → IsChosen h args cfg
  unfolding build_launcher_config
  build-IsChosen k =
      let (file, loaded, k1) =
        bind-eq-ok (load_backend_settings h (h.expand args.config)) _ cfg k in
      let (socket, e1, k2) =
        bind-eq-ok (coalesce_value h "socket" args.socket file none) _ cfg k1 in
      let (weaviate, e2, k3) =
        bind-eq-ok (coalesce_value h "weaviate_url" args.weaviate_url file none) _ cfg k2 in
      let (port, e3, k4) =
        bind-eq-ok (coalesce_int h "weaviate_grpc_port" args.weaviate_grpc_port file 50051) _ cfg
          k3 in
      let (ollama, e4, k5) =
        bind-eq-ok (coalesce_value h "ollama_url" args.ollama_url file none) _ cfg k4 in
      let (phoenix, e5, k6) =
        bind-eq-ok (coalesce_value h "phoenix_url" args.phoenix_url file none) _ cfg k5 in
      let (level, e6, k7) =
        bind-eq-ok (coalesce_value h "log_level" args.log_level file (some "INFO")) _ cfg k6 in
      let (trace, e7, k8) = bind-eq-ok (coalesce_bool h "trace" args.trace file false) _ cfg k7 in
      let same = ok_injective _ cfg k8 in
      record {
        file = file;
        loaded = loaded;
        socket = socket;
        socket_path = sym (ap (λ s. s.socket_path) same);
        socket_chosen = coalesce_value-Chosen h "socket" args.socket file none socket e1;
        weaviate =
            subst (Chosen h "weaviate_url" args.weaviate_url file none)
              (ap (λ s. s.weaviate_url) same)
              (coalesce_value-Chosen h "weaviate_url" args.weaviate_url file none weaviate e2);
        ollama =
            subst (Chosen h "ollama_url" args.ollama_url file none) (ap (λ s. s.ollama_url) same)
              (coalesce_value-Chosen h "ollama_url" args.ollama_url file none ollama e4);
        phoenix =
            subst (Chosen h "phoenix_url" args.phoenix_url file none) (ap (λ s. s.phoenix_url) same)
              (coalesce_value-Chosen h "phoenix_url" args.phoenix_url file none phoenix e5);
      }
