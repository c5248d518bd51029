-- ===== src/Transport/Router.antt =====
-- `TransportHandlers` of backend/src/adapters/transport/handlers/router.py: the handlers behind the
-- paths. A conversation or trace identifier of another type is handed on as it is by the code; the
-- model has its text. Trace sections are left out.
pub mod Contents
pub mod Ended
pub mod Statuses
use linux_rag_t.Prelude.{
  other_error, runtime_error, value_error, chars, any, map, if◌then◌else◌, strip, ◌<>◌, ◌==◌, ℕ,
  none, some, ok, err, true, false, [], ◌∷◌, Bool, Error, List, Option, Result, String, or_text,
  ◌>>=◌,
}
use linux_rag_t.Query.Engine.{answered, declined, raised, Answer}
use linux_rag_t.Json.{
  text_of, optional_of, no_keys, and_key, list_of, array, Dict, get, lookup, boolean, number,
  object, subscript, Json, Codec, get_default, int_of, json_dict, json_list, or_json, type_error,
  null, text,
}
use linux_rag_t.Ports.Ingestion.{
  scheduled, manual, init, IngestionJob, IngestionTrigger, SourceCatalog,
}
use linux_rag_t.Transport.Stream.{iterate, job_payload, queue_of}
use linux_rag_t.Ports.Health.{HealthCheck, HealthReport}
use linux_rag_t.Transport.Ports.{Callback}
use linux_rag_t.Transport.Serialize.{
  health_status_value, serialize_catalog, serialize_health_report, serialize_query_response,
  serialize_source_record,
}
use linux_rag_t.Transport.Index.{ensure_index_current}
use linux_rag_t.Transport.Errors.{TransportError}
use linux_rag_t.Query.{QueryRequest, QueryResponse, infix_of}

-- The arguments of `log_admin_health`.
pub record HealthEntry : Type 0 where
  pub overall_status : String
  pub trace_id : String
  pub results : List HealthCheck

-- The ports, what the audit logger raises if there is one, and a fresh identifier.
pub record Handlers : Type 0 where
  pub codec : Codec
  pub query_port : QueryRequest → Answer
  pub list_sources : Result SourceCatalog
  pub start_reindex : IngestionTrigger → Bool → Result (IngestionJob × List Callback)
  pub health_port : Option (Result HealthReport)
  pub timestamp : HealthCheck → ℕ
  pub audit_logger : Option (HealthEntry → Option Error)
  -- whether `asyncio.get_running_loop` finds one
  pub loop_running : Bool
  pub uuid : String

-- What `dispatch` returns or raises. A stream has its payloads, and whether it ends after them.
pub data Routed : Type 0 where
  replied : ℕ → Json → Routed
  streaming : ℕ → Json → List Json × Bool → Routed
  refused : TransportError → Routed
  crashed : Error → Routed

abbrev pub transport_error : ℕ → String → String → TransportError
transport_error status code message = record {
  status = status;
  code = code;
  message = message;
  remediation = none;
}

abbrev pub is_present : Option Json → Bool
is_present none = false
is_present (some _) = true

-- `key in body`
abbrev pub is_text_of : String → Json → Bool
is_text_of key (text s) = s == key
is_text_of key _ = false

abbrev pub has_key : String → Json → Result Bool
has_key key (object p) = ok (is_present (lookup key p))
has_key key (array l) = ok (any (is_text_of key) (list_of l))
has_key key (text s) = ok (infix_of (chars key) (chars s))
has_key key _ = err type_error

unfoldable pub query_request : Codec → Json → Result QueryRequest
query_request c body = do
  question ← subscript body "question"
  conversation_id ← get body "conversation_id"
  max ← get_default body "max_context_tokens" (number 4096) >>= int_of c
  trace_id ← get body "trace_id"
  ok (record {
    question = text_of c question;
    conversation_id = optional_of c conversation_id;
    max_context_tokens = max;
    trace_id = optional_of c trace_id;
  })

-- `IngestionTrigger(value)`, `none` where it raises `ValueError`.
abbrev pub ingestion_trigger : Json → Option IngestionTrigger
ingestion_trigger (text s) =
    if s == "init"
    then some init
    else if s == "manual"
    then some manual
    else if s == "scheduled"
    then some scheduled
    else none
ingestion_trigger _ = none

-- `force_value if isinstance(force_value, bool) else False`
abbrev pub force_of : Json → Bool
force_of (boolean b) = b
force_of _ = false

abbrev pub body_trace_id : Json → Json
body_trace_id (object p) = or_json (lookup "trace_id" p) null
body_trace_id _ = null

unfoldable pub extract_trace_id : String → Json → String
extract_trace_id uuid body = candidate (body_trace_id body)
  where
    candidate : Json → String
    candidate (text s) = or_text (strip s) uuid
    candidate _ = uuid

-- `payload[key] = value` for a key that the payload does not have.
abbrev pub put_last : String → Json → Dict → Dict
put_last key value no_keys = and_key key value no_keys
put_last key value (and_key k v l) = and_key k v (put_last key value l)

abbrev pub add_entry : Json → String → Json → Json
add_entry (object p) key value = object (put_last key value p)
add_entry j key value = j

-- `except (TypeError, ValueError)`
abbrev pub is_caught : Error → Bool
is_caught (value_error m) = true
is_caught (other_error m) = m == "TypeError"
is_caught _ = false

-- What `asyncio.get_running_loop` raises.
abbrev pub no_loop : Error
no_loop = runtime_error "no running event loop"

module _ (h : Handlers) where
  abbrev pub relay : Answer → Routed
  relay (answered r) = replied 200 (serialize_query_response r)
  relay (declined e) = refused e
  relay (raised e) = refused (transport_error 500 "QUERY_FAILED" "Query execution failed")

  -- Other exceptions of the constructor leave the handler, such as an `OverflowError`.
  abbrev pub query_with : Result QueryRequest → Routed
  query_with (err e) =
      if is_caught e
      then refused (transport_error 400 "INVALID_REQUEST" "Query request fields are malformed")
      else crashed e
  query_with (ok request) = relay (h.query_port request)

  abbrev pub query_if : Json → Result Bool → Routed
  query_if body (err e) = crashed e
  query_if body (ok false) =
      refused
        (transport_error 400 "INVALID_REQUEST" "Missing 'question' field in query request body")
  query_if body (ok true) = query_with (query_request h.codec body)

  unfoldable pub handle_query : Json → Routed
  unfolding query_request infix_of
  handle_query body = query_if body (has_key "question" body)

  abbrev pub listed : Result SourceCatalog → Routed
  listed (err e) = crashed e
  listed (ok catalog) = replied 200 (serialize_catalog h.codec catalog)

  unfoldable pub handle_list_sources : Routed
  handle_list_sources = listed h.list_sources

  abbrev pub streamed : Result (IngestionJob × List Callback) → Routed
  streamed (err e) = crashed e
  streamed (ok (job, calls)) =
      streaming 202 (job_payload h.codec job) (iterate (queue_of h.codec calls))

  -- `_JobStream(asyncio.get_running_loop())` comes before the start of the job.
  abbrev pub with_loop : Bool → Routed → Routed
  with_loop true routed = routed
  with_loop false routed = crashed no_loop

  abbrev pub reindex_on : Json → Json → Option IngestionTrigger → Routed
  reindex_on value force none =
      refused (
        transport_error 400 "INVALID_TRIGGER"
          ("Unsupported reindex trigger " <> h.codec.repr value))
  reindex_on value force (some trigger) =
      with_loop h.loop_running (streamed (h.start_reindex trigger (force_of force)))

  abbrev pub reindex_with : Json → Result Json → Routed
  reindex_with body (err e) = crashed e
  reindex_with body (ok value) = elim (get_default body "force" (boolean false)) [
    | err e ↦ crashed e
    | ok force ↦ reindex_on value force (ingestion_trigger value)
  ]

  unfoldable pub handle_reindex : Json → Routed
  unfolding iterate queue_of
  handle_reindex body = reindex_with body (get_default body "trigger" (text "manual"))

  abbrev pub created_directories : List Json
  created_directories =
      text "~/.config/ragcli" ∷ text "~/.local/share/ragcli" ∷ text "~/.local/state/ragcli" ∷ []

  abbrev pub init_payload : SourceCatalog → Json
  init_payload catalog = json_dict (
      ("catalog_version", number catalog.version)
      ∷ ("created_directories", json_list created_directories)
      ∷ ("seeded_sources", json_list (map (serialize_source_record h.codec) catalog.sources))
      ∷ [])

  abbrev pub init_if : SourceCatalog → Option TransportError → Routed
  init_if catalog (some e) = refused e
  init_if catalog none = replied 200 (init_payload catalog)

  abbrev pub init_with : Result SourceCatalog → Routed
  init_with (err e) = crashed e
  init_with (ok catalog) = init_if catalog (ensure_index_current catalog)

  unfoldable pub handle_admin_init : Routed
  unfolding ensure_index_current
  handle_admin_init = init_with h.list_sources

  abbrev pub log_result : Json → HealthEntry → Option Error → Routed × List HealthEntry
  log_result payload entry none = (replied 200 payload, entry ∷ [])
  log_result payload entry (some e) = (crashed e, [])

  abbrev pub logged :
      Json → HealthEntry → Option (HealthEntry → Option Error) → Routed × List HealthEntry
  logged payload entry none = (replied 200 payload, [])
  logged payload entry (some log) = log_result payload entry (log entry)

  abbrev pub health_with : String → Option (Result HealthReport) → Routed × List HealthEntry
  health_with trace_id none = (
    refused (
        transport_error 503 "HEALTH_UNAVAILABLE"
          "Health diagnostics are unavailable on this backend."),
    [],
  )
  health_with trace_id (some (err e)) = (crashed e, [])
  health_with trace_id (some (ok report)) =
      logged
        (add_entry (serialize_health_report h.codec h.timestamp report) "trace_id" (text trace_id))
        (record {
          overall_status = health_status_value report.status;
          trace_id = trace_id;
          results = report.checks;
        })
        h.audit_logger

  unfoldable pub handle_admin_health : Json → Routed × List HealthEntry
  unfolding extract_trace_id
  handle_admin_health body = health_with (extract_trace_id h.uuid body) h.health_port

  unfoldable pub dispatch : String → Json → Routed × List HealthEntry
  unfolding handle_query handle_list_sources handle_reindex handle_admin_init handle_admin_health
  dispatch path body =
      if path == "/v1/query"
      then (handle_query body, [])
      else if path == "/v1/sources"
      then (handle_list_sources, [])
      else if path == "/v1/index/reindex"
      then (handle_reindex body, [])
      else if path == "/v1/admin/init"
      then (handle_admin_init, [])
      else if path == "/v1/admin/health"
      then handle_admin_health body
      else (
        refused (transport_error 404 "NOT_FOUND" ("Unknown path " <> h.codec.repr (text path))),
        [],
      )
