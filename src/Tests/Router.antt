-- ===== src/Tests/Router.antt =====
-- Requests behind the router: a reindex run with its stream, and requests that are refused.
use linux_rag_t.Query.{ratio}
use linux_rag_t.Transport.Router.{
  no_loop, crashed, refused, dispatch, Handlers, extract_trace_id, transport_error,
}
use linux_rag_t.Transport.Ports.{ReindexPort}
use linux_rag_t.Json.{
  overflow_error, real, no_keys, number, and_key, Json, Dict, type_error, null, text, object,
}
use linux_rag_t.Query.Engine.{raised}
use linux_rag_t.Prelude.{strip, refl, none, ok, err, true, false, [], other_error, ◌≡◌}
use linux_rag_t.Transport.Router.Statuses.{IsExpected, dispatch-IsExpected}
use linux_rag_t.Tests.Reindex.{service, before}
use linux_rag_t.Tests.Storage.{codec}

abbrev handlers : Handlers
handlers = record {
  codec = codec;
  query_port = λ request. raised (other_error "no model");
  list_sources = ok before;
  start_reindex = λ trigger force. err (other_error "no service");
  health_port = none;
  timestamp = λ check. 0;
  audit_logger = none;
  loop_running = true;
  uuid = "id";
}

abbrev port : ReindexPort
port = record {
  load = ok before;
  now = 8;
  uuid = "7";
  has_service = true;
  loop_running = true;
  service = service;
}

abbrev reindex_body : Dict
reindex_body = and_key "trigger" (text "scheduled") no_keys

dispatch-IsExpected_example :
    IsExpected handlers
      (object reindex_body)
      (dispatch handlers "/v1/index/reindex" (object reindex_body)).0
dispatch-IsExpected_example = dispatch-IsExpected handlers "/v1/index/reindex" (object reindex_body)

no_question : dispatch handlers "/v1/query" (object no_keys) ≡ (
  refused (transport_error 400 "INVALID_REQUEST" "Missing 'question' field in query request body"),
  [],
)
unfolding dispatch
no_question = refl

-- A text that holds the key passes the first test and fails the second.
question_text :
    dispatch handlers "/v1/query" (text "a question")
    ≡ (refused (transport_error 400 "INVALID_REQUEST" "Query request fields are malformed"), [])
unfolding dispatch
question_text = refl

no_model :
    dispatch handlers "/v1/query" (object (and_key "question" (text "how?") no_keys))
    ≡ (refused (transport_error 500 "QUERY_FAILED" "Query execution failed"), [])
unfolding dispatch
no_model = refl

number_body : dispatch handlers "/v1/query" (number 3) ≡ (crashed type_error, [])
unfolding dispatch
number_body = refl

unknown_path :
    dispatch handlers "/v1/other" null
    ≡ (refused (transport_error 404 "NOT_FOUND" "Unknown path value"), [])
unfolding dispatch
unknown_path = refl

trimmed_trace : extract_trace_id "id" (object (and_key "trace_id" (text "  t1 ") no_keys)) ≡ "t1"
unfolding extract_trace_id strip
trimmed_trace = refl

blank_trace : extract_trace_id "id" (object (and_key "trace_id" (text "  ") no_keys)) ≡ "id"
unfolding extract_trace_id strip
blank_trace = refl

-- An infinite number of tokens leaves the router as an exception, as does a reindex without a loop.
infinite_tokens :
    dispatch handlers "/v1/query" (
      object (
        and_key "question" (text "how?") (and_key "max_context_tokens" (real (ratio 1 0)) no_keys)))
    ≡ (crashed overflow_error, [])
unfolding dispatch
infinite_tokens = refl

no_loop_reindex :
    dispatch (record handlers { loop_running = false }) "/v1/index/reindex" (object reindex_body)
    ≡ (crashed no_loop, [])
unfolding dispatch
no_loop_reindex = refl
