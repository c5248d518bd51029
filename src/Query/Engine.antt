-- ===== src/Query/Engine.antt =====
-- `RetrievalLLMQueryPort` of backend/src/application/query_engine.py. A completion is a JSON mapping.
-- An optional field of a reference that is no text is handed on as it is by the code; the model has
-- its text. Times that were measured are arguments.
pub mod Grounded
use linux_rag_t.Json.{
  overflow_error, is_decode_error, is_true, no_values, and_value, no_keys, and_key, list_of, get,
  lookup, Json, Dict, Codec, attribute_error, optional_of, or_json, text_of, null, text, object,
  array, number, real, boolean,
}
use linux_rag_t.Prelude.{
  ◌^◌, ◌-◌, chars, eqb, length, ◌||◌, keep, leb, ltb, nonempty, not, take, ◌++◌, ◌+◌, if◌then◌else◌,
  map, strip, ℕ, ◌<>◌, none, some, ok, err, true, false, [], ◌∷◌, Bool, Error, List, Option, Result,
  String, is_nil, of_chars, or_default, or_text, ◌>>=◌,
}
use linux_rag_t.Query.{ratio, Citation, Float, QueryRequest, QueryResponse, Reference, float_ltb}
use linux_rag_t.Chunking.{Document}
use linux_rag_t.Prelude.Decimal.{str_nat}
use linux_rag_t.Transport.Errors.{TransportError, index_unavailable}
use linux_rag_t.Ports.Ingestion.{SourceCatalog, SourceRecord, SourceType, is_active}

pub record Snippet : Type 0 where
  pub alias : String
  pub checksum : String
  pub chunk_id : ℕ
  pub text : String
  pub document_id : String

abbrev pub label : Snippet → String
label s = s.alias <> ":" <> str_nat s.chunk_id

-- `self.text[:160].strip()`
unfoldable pub preview : Snippet → String
unfolding strip of_chars
preview s = strip (of_chars (take 160 (chars s.text)))

-- The catalog, the vector store, the language model, `uuid5` of a seed, `float` of a text, a fresh
-- identifier, and the measured times.
pub record Engine : Type 0 where
  pub codec : Codec
  pub load : Result SourceCatalog
  pub query_documents : String → SourceType → String → ℕ → Result (List Document)
  pub generate_completion : String → Result Json
  pub uuid5 : String → String
  pub parse_float : String → Option Float
  pub documents_per_source : ℕ
  pub correlation_id : String
  pub retrieval_ms : ℕ
  pub llm_ms : ℕ

-- What the port returns or raises.
pub data Answer : Type 0 where
  answered : QueryResponse → Answer
  declined : TransportError → Answer
  raised : Error → Answer

-- `"\n".join(lines)`
abbrev pub join_lines : List String → String
join_lines [] = ""
join_lines (s ∷ []) = s
join_lines (s ∷ t ∷ l) = s <> "\n" <> join_lines (t ∷ l)

abbrev pub instructions : String
instructions =
    "You are a local Linux assistant. Use ONLY the provided context to answer the question.\nRespond as JSON with the following keys: summary (string), steps (array of short instructions),\nreferences (array of objects with label and optional notes/url), confidence (0-1 float),\nand no_answer (boolean). Keep guidance concise and cite the relevant context snippets."

unfoldable pub context_block : Snippet → String
unfolding strip
context_block s = "[" <> s.alias <> ":" <> str_nat s.chunk_id <> "] " <> strip s.text

unfoldable pub render_prompt : String → List Snippet → String
unfolding context_block strip
render_prompt question contexts =
    instructions
    <> "\n\nContext:\n"
    <> join_lines (map context_block contexts)
    <> "\n\nQuestion:\n"
    <> strip question
    <> "\n\nJSON Response:"

abbrev pub field : String → Dict → Json
field key p = or_json (lookup key p) null

-- `_ensure_steps`
abbrev pub step_texts : List Json → List String
step_texts [] = []
step_texts (text s ∷ l) = let rest = step_texts l in if nonempty (strip s) then s ∷ rest else rest
step_texts (_ ∷ l) = step_texts l

unfoldable pub ensure_steps : Json → List String
ensure_steps (array l) = step_texts (list_of l)
ensure_steps (text s) = if nonempty (strip s) then strip s ∷ [] else []
ensure_steps _ = []

-- `[step.strip() for step in steps if step]`
abbrev pub stripped_steps : List String → List String
stripped_steps l = map strip (keep nonempty l)

-- `max(0.0, min(1.0, x))`. A comparison with `nan` fails, so `min` gives 1.0 there.
unfoldable pub clamp : Float → Float
clamp x =
    let most = if float_ltb x (ratio 1 1) then x else ratio 1 1 in
    if float_ltb (ratio 0 1) most then most else ratio 0 1

-- `text.strip()` of a text, and otherwise the default.
abbrev pub stripped_or : Json → String → String
stripped_or (text s) default = strip s
stripped_or _ default = default

abbrev pub stripped_text : Json → String
stripped_text j = stripped_or j ""

unfoldable pub citation_of : Snippet → Citation
unfolding preview
citation_of s = record { alias = s.alias; document_ref = s.document_id; excerpt = some (preview s) }

unfoldable pub reference_of : Snippet → Reference
unfolding preview
reference_of s = record { label = label s; url = none; notes = some (preview s) }

abbrev pub or_references : List Reference → List Snippet → List Reference
or_references [] contexts = map reference_of contexts
or_references (r ∷ l) contexts = r ∷ l

-- The least whole number that `float` refuses.
unfoldable pub float_limit : ℕ
float_limit = 2 ^ 1024 - 2 ^ 970

module _ (c : Engine) where
  -- `Document.document_id`
  abbrev pub document_id : Document → String
  document_id d = c.uuid5 (d.alias <> ":" <> d.checksum <> ":" <> str_nat d.chunk_id)

  abbrev pub snippet_of : Document → Snippet
  snippet_of d = record {
    alias = d.alias;
    checksum = d.checksum;
    chunk_id = d.chunk_id;
    text = d.text;
    document_id = document_id d;
  }

  abbrev pub found_snippets : Result (List Document) → List Snippet
  found_snippets (err e) = []
  found_snippets (ok l) = map snippet_of l

  -- `max(1, documents_per_source)`
  abbrev pub limit : ℕ
  limit = if ltb 1 c.documents_per_source then c.documents_per_source else 1

  unfoldable pub collect_contexts : List SourceRecord → List Snippet
  collect_contexts [] = []
  collect_contexts (r ∷ l) =
      let rest = collect_contexts l in
      if is_active r.status
      then found_snippets (c.query_documents r.alias r.type r.language limit) ++ rest
      else rest

  abbrev pub given_reference : Dict → Reference
  given_reference p = record {
    label = or_text (text_of c.codec (or_json (lookup "label" p) (text ""))) "context";
    url = optional_of c.codec (field "url" p);
    notes = optional_of c.codec (field "notes" p);
  }

  abbrev pub given_references : List Json → List Reference
  given_references [] = []
  given_references (object p ∷ l) = given_reference p ∷ given_references l
  given_references (_ ∷ l) = given_references l

  abbrev pub references_in : Json → List Reference
  references_in (array l) = given_references (list_of l)
  references_in _ = []

  unfoldable pub build_references : Json → List Snippet → List Reference
  unfolding reference_of
  build_references data_given contexts = or_references (references_in data_given) contexts

  unfoldable pub build_citations : List Snippet → List Citation
  unfolding citation_of
  build_citations contexts = map citation_of contexts

  abbrev pub float_or : Option Float → Float → Float
  float_or none default = default
  float_or (some x) default = x

  -- `_safe_float`. An `OverflowError` is not caught.
  unfoldable pub safe_float : Json → Float → Result Float
  unfolding float_limit
  safe_float (number n) default = if ltb n float_limit then ok (ratio n 1) else err overflow_error
  safe_float (real x) default = ok x
  safe_float (boolean true) default = ok (ratio 1 1)
  safe_float (boolean false) default = ok (ratio 0 1)
  safe_float (text s) default = ok (float_or (c.parse_float s) default)
  safe_float _ default = ok default

  -- `json.loads` of a response, of whose errors only `JSONDecodeError` is caught.
  abbrev pub loaded_or_empty : Result Json → Result Json
  loaded_or_empty (err e) = if is_decode_error e then ok (object no_keys) else err e
  loaded_or_empty (ok j) = ok j

  -- `_parse_completion`
  abbrev pub parse_completion : Json → Result Json
  parse_completion (object p) = ok (object p)
  parse_completion (text s) = loaded_or_empty (c.codec.loads s)
  parse_completion _ = ok (object no_keys)

  abbrev pub index_version : SourceCatalog → Option String
  index_version catalog = some ("catalog/v" <> str_nat catalog.version)

  abbrev pub no_documents : QueryRequest → SourceCatalog → QueryResponse
  no_documents request catalog = record {
    summary =
        "No indexed documents are available for the current catalog. Run `ragadmin reindex` to populate retrieval context.";
    steps = "Run `ragadmin reindex` and retry the query." ∷ [];
    references =
        record { label = "Catalog"; url = none; notes = some "No indexed snapshots available." }
        ∷ [];
    citations = [];
    confidence = ratio 25 100;
    trace_id = or_default request.trace_id c.correlation_id;
    latency_ms = c.retrieval_ms;
    retrieval_latency_ms = some c.retrieval_ms;
    llm_latency_ms = some 0;
    index_version = index_version catalog;
    answer = none;
    no_answer = true;
    semantic_chunk_count = some 0;
    context_truncated = false;
    confidence_threshold = none;
    stale_index_detected = false;
    backend_correlation_id = some c.correlation_id;
  }

  abbrev pub summary_of : QueryRequest → Dict → String
  summary_of request parsed =
      or_text (stripped_text (field "summary" parsed))
        ("Consult the retrieved manuals for guidance on '" <> request.question <> "'.")

  unfoldable pub respond :
      QueryRequest → SourceCatalog → List Snippet → Dict → Float → QueryResponse
  unfolding build_references build_citations ensure_steps clamp strip
  respond request catalog contexts parsed confidence = record {
    summary = summary_of request parsed;
    steps = stripped_steps (ensure_steps (field "steps" parsed));
    references = build_references (field "references" parsed) contexts;
    citations = build_citations contexts;
    confidence = clamp confidence;
    trace_id = or_default request.trace_id c.correlation_id;
    latency_ms = c.retrieval_ms + c.llm_ms;
    retrieval_latency_ms = some c.retrieval_ms;
    llm_latency_ms = some c.llm_ms;
    index_version = index_version catalog;
    answer = some (stripped_or (field "answer" parsed) (summary_of request parsed));
    no_answer = is_true (or_json (lookup "no_answer" parsed) (boolean false));
    semantic_chunk_count = some (length contexts);
    context_truncated = false;
    confidence_threshold = none;
    stale_index_detected = false;
    backend_correlation_id = some c.correlation_id;
  }

  abbrev pub respond_with :
      QueryRequest → SourceCatalog → List Snippet → Dict → Result Float → Answer
  respond_with request catalog contexts parsed (err e) = raised e
  respond_with request catalog contexts parsed (ok confidence) =
      answered (respond request catalog contexts parsed confidence)

  -- `parsed.get` raises for a JSON value that is no mapping.
  abbrev pub respond_to : QueryRequest → SourceCatalog → List Snippet → Result Json → Answer
  respond_to request catalog contexts (err e) = raised e
  respond_to request catalog contexts (ok (object parsed)) =
      respond_with request catalog contexts parsed
        (safe_float (field "confidence" parsed) (ratio 6 10))
  respond_to request catalog contexts (ok _) = raised attribute_error

  abbrev pub respond_body : QueryRequest → SourceCatalog → List Snippet → Result Json → Answer
  respond_body request catalog contexts (err e) = raised e
  respond_body request catalog contexts (ok body) =
      respond_to request catalog contexts (parse_completion body)

  abbrev pub completed_with : QueryRequest → SourceCatalog → List Snippet → Result Json → Answer
  completed_with request catalog contexts (err e) = raised e
  completed_with request catalog contexts (ok completion) =
      respond_body request catalog contexts (get completion "response")

  abbrev pub ask : QueryRequest → SourceCatalog → List Snippet → Answer
  ask request catalog [] = answered (no_documents request catalog)
  ask request catalog (s ∷ l) =
      completed_with request catalog (s ∷ l)
        (c.generate_completion (render_prompt request.question (s ∷ l)))

  abbrev pub index_missing : TransportError
  index_missing =
      index_unavailable "INDEX_MISSING" "No content index is available for the current catalog."
        "Run ragadmin reindex to build the knowledge index before continuing."

  abbrev pub query_on : QueryRequest → Result SourceCatalog → Answer
  query_on request (err e) = raised e
  query_on request (ok catalog) =
      if leb catalog.version 0 || is_nil catalog.snapshots
      then declined index_missing
      else ask request catalog (collect_contexts catalog.sources)

  unfoldable pub query : QueryRequest → Answer
  unfolding collect_contexts respond render_prompt safe_float
  query request = query_on request c.load
