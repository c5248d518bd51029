-- ===== src/Tests/Engine.antt =====
-- A question over one active and one withdrawn source, and completions that are no mapping.
use linux_rag_t.Json.{
  overflow_error, Json, Dict, attribute_error, json_list, text, object, number, and_key, no_keys,
}
use mathlib.Core.Path.{subst}
use linux_rag_t.Prelude.{
  ◌^◌, ◌⊎◌, map, ◌||◌, leb, refl, none, some, ok, true, false, [], ◌∷◌, All, String, is_nil, ◌≡◌,
}
use linux_rag_t.Query.Engine.{
  declined, answered, clamp, query, raised, respond, Answer, Engine, index_missing, respond_to,
  snippet_of,
}
use linux_rag_t.Ports.Ingestion.{quarantined, active, man, SourceCatalog}
use linux_rag_t.Query.{nan, ratio, QueryRequest, QueryResponse}
use linux_rag_t.Chunking.{Document}
use linux_rag_t.Query.Engine.Grounded.{Answers, FiltersAlias, query_grounded}
use linux_rag_t.Tests.Reindex.{source}
use linux_rag_t.Tests.Storage.{codec}

abbrev indexed_catalog : SourceCatalog
indexed_catalog = record {
  version = 2;
  updated_at = 1;
  sources = source "bash" active "c1" ∷ source "old" quarantined "c2" ∷ [];
  snapshots = record { alias = "bash"; checksum = "c1" } ∷ [];
}

abbrev pub chunk : String → Document
chunk alias = record {
  alias = alias;
  checksum = "c1";
  chunk_id = 0;
  text = " chmod changes modes ";
  source_type = man;
  language = "en";
}

abbrev engine_for : Json → Engine
engine_for completion = record {
  codec = codec;
  load = ok indexed_catalog;
  query_documents = λ alias kind language n. ok (chunk alias ∷ []);
  generate_completion = λ prompt. ok completion;
  uuid5 = λ s. s;
  parse_float = λ s. none;
  documents_per_source = 3;
  correlation_id = "id";
  retrieval_ms = 2;
  llm_ms = 5;
}

abbrev parsed : Dict
parsed = and_key "summary" (text " Use chmod. ") (and_key "confidence" (number 7) no_keys)

abbrev engine : Engine
engine = engine_for (object (and_key "response" (object parsed) no_keys))

abbrev request : QueryRequest
request = record {
  question = "How?";
  conversation_id = none;
  max_context_tokens = 4096;
  trace_id = none;
}

engine-FiltersAlias : FiltersAlias engine
engine-FiltersAlias alias language kind n l h =
    subst (All (λ d. d.alias ≡ alias)) {x = chunk alias ∷ []} (cc h) (refl, tt)

query_grounded_example :
    (((leb indexed_catalog.version 0 || is_nil indexed_catalog.snapshots) ≡ true)
      × (query engine request ≡ declined (index_missing engine)))
    ⊎ (((leb indexed_catalog.version 0 || is_nil indexed_catalog.snapshots) ≡ false)
        × ((a : Answer) × (query engine request ≡ a) × Answers engine indexed_catalog a))
query_grounded_example = query_grounded engine request indexed_catalog refl engine-FiltersAlias

-- Only the active source is asked, and a confidence above 1 is cut.
abbrev reply : QueryResponse
reply =
    respond engine request indexed_catalog (snippet_of engine (chunk "bash") ∷ []) parsed
      (ratio 7 1)

asked : query engine request ≡ answered reply
unfolding query linux_rag_t.Query.Engine.safe_float linux_rag_t.Query.Engine.float_limit
asked = refl

cut_reply : (reply.confidence ≡ ratio 1 1) × (reply.summary ≡ "Use chmod.")
unfolding respond
cut_reply = (refl, refl)

cited : map (λ citation. citation.excerpt) reply.citations ≡ some "chmod changes modes" ∷ []
unfolding respond
cited = refl

-- A response that is valid JSON and no mapping is not caught.
list_response :
    respond_to engine request indexed_catalog [] (ok (json_list [])) ≡ raised attribute_error
list_response = refl

nan_confidence : clamp nan ≡ ratio 1 1
unfolding clamp
nan_confidence = refl

-- A whole number beyond the floats is not caught either.
huge_confidence :
    respond_to engine request indexed_catalog []
      (ok (object (and_key "confidence" (number (10 ^ 400)) no_keys)))
    ≡ raised overflow_error
unfolding linux_rag_t.Query.Engine.safe_float linux_rag_t.Query.Engine.float_limit
huge_confidence = refl
