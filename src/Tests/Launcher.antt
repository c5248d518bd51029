-- ===== src/Tests/Launcher.antt =====
-- A launcher whose file names the socket and the addresses, with one override.
use linux_rag_t.Launcher.{
  content, main, stopped, Arguments, HandlerSettings, Host, LauncherConfig, ServerEnd,
  build_launcher_config, coalesce_bool, coalesce_int, coalesce_value, load_backend_settings,
}
use linux_rag_t.Prelude.{lower, strip, refl, none, some, ok, err, true, false, ◌≡◌}
use linux_rag_t.Json.{Dict, Json, and_key, type_error, text, object, array, no_values, no_keys}
use linux_rag_t.Launcher.Launched.{Launched}
use linux_rag_t.Tests.Storage.{codec}

abbrev file : Dict
file =
    and_key "backend"
      (object (
        and_key "socket" (text "~/s") (
          and_key "weaviate_url" (text "http://w")
            (and_key "ollama_url" (text "http://o") (and_key "phoenix_url" (text "") no_keys)))))
      no_keys

abbrev host_for : Json → Host
host_for parsed = record {
  codec = codec;
  expand = λ s. s;
  read = λ path. content "yaml";
  safe_load = λ s. some parsed;
  environment = λ name. none;
  upper = λ s. s;
  working_directory = "/w";
}

abbrev host : Host
host = host_for (object file)

abbrev arguments : Arguments
arguments = record {
  config = "c.yaml";
  socket = none;
  weaviate_url = some "";
  weaviate_grpc_port = none;
  ollama_url = some "http://local";
  phoenix_url = none;
  trace = none;
  log_level = none;
}

abbrev stops : LauncherConfig → HandlerSettings → ServerEnd
stops config settings = stopped

-- The blank address of the file is refused; an override mends it.
blank_phoenix : (main host stops arguments).code ≡ ok 2
unfolding main build_launcher_config load_backend_settings coalesce_value coalesce_int coalesce_bool
blank_phoenix = refl

abbrev mended : Arguments
mended = record arguments { phoenix_url = some "http://p" }

abbrev config_of : LauncherConfig
config_of = record {
  config_path = "c.yaml";
  socket_path = "~/s";
  weaviate_url = "http://w";
  weaviate_grpc_port = 50051;
  ollama_url = "http://local";
  phoenix_url = "http://p";
  enable_trace = false;
  log_level = "INFO";
}

mended_config : build_launcher_config host mended ≡ ok config_of
unfolding build_launcher_config load_backend_settings coalesce_value coalesce_int coalesce_bool
mended_config = refl

-- A list where a text belongs is no configuration error.
list_socket :
    coalesce_value host "socket" none (and_key "socket" (array no_values) no_keys) none
    ≡ err type_error
unfolding coalesce_value
list_socket = refl

yes_trace : coalesce_bool host "trace" none (and_key "trace" (text " Yes") no_keys) false ≡ ok true
unfolding coalesce_bool strip lower
yes_trace = refl
