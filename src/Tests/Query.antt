-- ===== src/Tests/Query.antt =====
-- The runner at a concrete answer.
use linux_rag_t.Prelude.{
  starts_with, ◌↔◌, ◌⊎◌, strip, ◌<◌, ◌==◌, if◌then◌else◌, ◌≤◌, refl, none, some, ok, err, true,
  false, [], arith, ◌∷◌, Option, Result, String, runtime_error, ◌≡◌,
}
use linux_rag_t.Query.{
  threshold, Float, QueryRequest, QueryResponse, budget_message, float_ltb, run, ratio, lines,
}
use linux_rag_t.Query.Verdict.{Shown, Withheld, run_cases}

abbrev question : QueryRequest
question = record {
  question = "how?";
  conversation_id = none;
  max_context_tokens = 100;
  trace_id = none;
}

abbrev reply : QueryResponse
reply = record {
  summary = "so";
  steps = "step" ∷ [];
  references = [];
  citations = [];
  confidence = ratio 3 10;
  trace_id = "t";
  latency_ms = 1;
  retrieval_latency_ms = none;
  llm_latency_ms = none;
  index_version = none;
  answer = some "so";
  no_answer = false;
  semantic_chunk_count = none;
  context_truncated = false;
  confidence_threshold = none;
  stale_index_detected = false;
  backend_correlation_id = none;
}

abbrev port : QueryRequest → Result QueryResponse
port request = ok reply

-- `float`, on the two texts of the tests.
abbrev read_float : String → Option Float
read_float s = if s == "0.2" then some (ratio 2 10) else if s == "7" then some (ratio 7 1) else none

configured :
    threshold read_float
      (lines ("# confidence_threshold: 7" ∷ "  confidence_threshold: 0.2" ∷ []))
      none
    ≡ ratio 2 10
unfolding threshold strip starts_with
configured = refl

run_cases_example :
    (200 ≤ 150 → run port (ratio 35 100) question (some 150) ≡ err (runtime_error budget_message))
    × (150 < 200
        → (r : QueryResponse) × (run port (ratio 35 100) question (some 150) ≡ ok r)
          × (150 ≤ 100
              → float_ltb (ratio 3 10) (ratio 35 100) ≡ false
              → Shown (ratio 35 100) reply r)
          × ((100 < 150) ⊎ (float_ltb (ratio 3 10) (ratio 35 100) ≡ true) → Withheld r)
          × ((r.context_truncated ≡ true) ↔ (100 < 150)))
run_cases_example = run_cases port (ratio 35 100) question 150 reply refl (omega arith)
