-- ===== src/Wiring/Checks.antt =====
-- The dependency checks of backend/src/adapters/transport/handlers/health.py. An HTTP request gives its
-- result by its endpoint and the number of the attempt; log lines are left out.
pub mod Decided
use linux_rag_t.Json.{null, lookup, Json, Codec, list_of, or_json, text_of, object, array}
use linux_rag_t.Prelude.{
  ◌||◌, ◌⊎◌, chars, code, length, not, truthy, ◌≤◌, eqb, if◌then◌else◌, rstrip, ℕ, ◌<>◌, none, some,
  ok, err, [], ◌∷◌, Bool, Char, List, Option, Result, String, of_chars, or_empty, ◌≡◌,
}
use linux_rag_t.Ports.Health.{
  count, HealthCheck, HealthComponent, HealthStatus, pass, fail, ollama, weaviate, phoenix,
}
use linux_rag_t.Launcher.{HandlerSettings}
use linux_rag_t.Prelude.Decimal.{str_nat}
use linux_rag_t.Wiring.Retry.{Failing, retry_with_backoff}

abbrev pub is_slash : Char → Bool
is_slash ch = eqb (code ch) b'/'

-- `url.rstrip("/")`
unfoldable pub without_slash : String → String
unfolding rstrip of_chars
without_slash url = of_chars (rstrip is_slash (chars url))

abbrev pub check_of : HealthComponent → HealthStatus → String → HealthCheck
check_of component status message = record {
  component = component;
  status = status;
  message = message;
  remediation = none;
  metrics = [];
}

abbrev pub failed_check : HealthComponent → String → String → HealthCheck
failed_check component message remediation = record (check_of component fail message) {
  remediation = some remediation;
}

-- Whether the services are fakes, and what requests give.
pub record Services : Type 0 where
  pub codec : Codec
  pub using_fakes : Bool
  pub get_json : String → ℕ → Result Json
  pub request : String → ℕ → Result (Unit {0})

abbrev pub model_list : Option Json → ℕ
model_list (some (array l)) = length (list_of l)
model_list _ = 0

abbrev pub model_count : Json → ℕ
model_count (object p) = model_list (lookup "models" p)
model_count _ = 0

module _ (s : Services) where
  abbrev pub ollama_answer : String → Result Json → HealthCheck
  ollama_answer url (err e) =
      failed_check ollama "Unable to reach Ollama service."
        ("Ensure Ollama is running locally at " <> url <> ".")
  ollama_answer url (ok payload) =
      record (check_of ollama pass
        ("Ollama responding with " <> str_nat (model_count payload) <> " models.")) {
          metrics = ("model_count", count (model_count payload)) ∷ [];
        }

  abbrev pub ollama_endpoint : HandlerSettings → String
  ollama_endpoint settings = without_slash settings.ollama_url <> "/api/tags"

  unfoldable pub ollama_health_check : HandlerSettings → HealthCheck
  ollama_health_check settings =
      if s.using_fakes
      then check_of ollama pass "Ollama adapter running in fake mode."
      else ollama_answer settings.ollama_url
          (retry_with_backoff (s.get_json (ollama_endpoint settings)) []).result

  abbrev pub weaviate_status : Json → String
  weaviate_status (object p) = text_of s.codec (or_json (lookup "status" p) null)
  weaviate_status _ = "ready"

  abbrev pub weaviate_answer : String → Result Json → HealthCheck
  weaviate_answer url (err e) =
      failed_check weaviate "Unable to reach Weaviate service."
        ("Ensure Weaviate is running locally at " <> url <> ".")
  weaviate_answer url (ok payload) =
      check_of weaviate pass ("Weaviate ready endpoint responded: " <> weaviate_status payload)

  abbrev pub weaviate_endpoint : HandlerSettings → String
  weaviate_endpoint settings = without_slash settings.weaviate_url <> "/v1/.well-known/ready"

  unfoldable pub weaviate_health_check : HandlerSettings → HealthCheck
  weaviate_health_check settings =
      if s.using_fakes
      then check_of weaviate pass "Weaviate adapter running in fake mode."
      else weaviate_answer settings.weaviate_url
          (retry_with_backoff (s.get_json (weaviate_endpoint settings)) []).result

  -- The loop over the endpoints.
  abbrev pub reached : String → HealthCheck → Result (Unit {0}) → HealthCheck
  reached endpoint rest (ok _) = check_of phoenix pass ("Phoenix reachable at " <> endpoint <> ".")
  reached endpoint rest (err e) = rest

  abbrev pub try_endpoints : String → List String → HealthCheck
  try_endpoints url [] =
      failed_check phoenix "Unable to reach Phoenix tracing service."
        ("Ensure Phoenix is running locally at " <> url <> ".")
  try_endpoints url (endpoint ∷ l) =
      reached endpoint (try_endpoints url l) (retry_with_backoff (s.request endpoint) []).result

  abbrev pub phoenix_endpoints : String → List String
  phoenix_endpoints url = (without_slash url <> "/health") ∷ without_slash url ∷ []

  unfoldable pub phoenix_health_check : HandlerSettings → HealthCheck
  phoenix_health_check settings =
      if s.using_fakes
      then check_of phoenix pass "Phoenix tracing running in fake mode."
      else if not (truthy settings.phoenix_url)
      then check_of phoenix pass
          "Phoenix tracing not configured; set --phoenix-url to enable dashboards."
      else try_endpoints (or_empty settings.phoenix_url)
          (phoenix_endpoints (or_empty settings.phoenix_url))

  -- The checks of `_build_health_port`.
  unfoldable pub dependency_checks : HandlerSettings → List HealthCheck
  unfolding ollama_health_check weaviate_health_check phoenix_health_check
  dependency_checks settings =
      ollama_health_check settings
      ∷ weaviate_health_check settings
      ∷ (if truthy settings.phoenix_url || s.using_fakes
          then phoenix_health_check settings ∷ []
          else [])
