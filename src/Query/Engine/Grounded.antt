-- ===== src/Query/Engine/Grounded.antt =====
-- What an answer of the query engine rests on.
use linux_rag_t.Query.Engine.{
  respond_with, loaded_or_empty, float_limit, field, raised, declined, answered, ask, query,
  respond, Answer, build_citations, build_references, completed_with, index_missing, no_documents,
  parse_completion, references_in, render_prompt, respond_body, respond_to, safe_float, limit,
  found_snippets, snippet_of, clamp, Engine, Snippet, citation_of, collect_contexts, ensure_steps,
  or_references, step_texts, stripped_steps,
}
use linux_rag_t.Json.{
  no_keys, overflow_error, is_decode_error, is_mapping, Dict, get, list_of, Json, null, text,
  object, array, number, real, boolean,
}
use linux_rag_t.Prelude.{
  ltb, ◌≤◌, ◌⊎◌, ◌||◌, ap, leb, sym, suc, length-map, All-append, Result, ◌<>◌, length, contains,
  strip, map, nonempty, ℕ, refl, some, inl, inr, ok, err, true, false, [], arith, ◌∷◌, All,
  Bool-cases, Error, List, String, is_nil, ◌≡◌,
}
use linux_rag_t.Transport.Index.{active_sources}
use linux_rag_t.Query.{
  QueryRequest, Citation, Float, QueryResponse, Reference, float_ltb, nan, negative, ratio,
}
use mathlib.Core.Path.{subst}
use mathlib.Core.List.{map-append}
use linux_rag_t.Prelude.Keyed.{str-eq_refl, keys}
use linux_rag_t.Ports.Ingestion.{SourceRecord, is_active, SourceCatalog, SourceType}
use linux_rag_t.Prelude.Decimal.{str_nat}
use linux_rag_t.Query.Verdict.{InUnit}
use linux_rag_t.Catalog.Service.{alias_of}
use linux_rag_t.Chunking.{Document}
use linux_rag_t.Prelude.Trim.{strip_idem}

abbrev IsFilled : String → Type 0
IsFilled s = nonempty s ≡ true

step_texts-IsFilled : (l : List Json) → All IsFilled (stripped_steps (step_texts l))
unfolding strip
step_texts-IsFilled [] = tt
step_texts-IsFilled (text String.[] ∷ l) = step_texts-IsFilled l
step_texts-IsFilled (text (String.◌∷◌ c s) ∷ l) =
    elim (Bool-cases (nonempty (strip (String.◌∷◌ c s)))) [
      | inl e ↦ rw e (e, step_texts-IsFilled l)
      | inr e ↦ rw e (step_texts-IsFilled l)
    ]
step_texts-IsFilled (null ∷ l) = step_texts-IsFilled l
step_texts-IsFilled (boolean b ∷ l) = step_texts-IsFilled l
step_texts-IsFilled (number n ∷ l) = step_texts-IsFilled l
step_texts-IsFilled (real x ∷ l) = step_texts-IsFilled l
step_texts-IsFilled (array x ∷ l) = step_texts-IsFilled l
step_texts-IsFilled (object x ∷ l) = step_texts-IsFilled l

ensure_steps-IsFilled : (j : Json) → All IsFilled (stripped_steps (ensure_steps j))
unfolding ensure_steps
ensure_steps-IsFilled (text s) = elim (Bool-cases (nonempty (strip s))) [
  | inl e ↦ rw (e, e, strip_idem) (e, tt)
  | inr e ↦ rw e tt
]
ensure_steps-IsFilled (array l) = step_texts-IsFilled (list_of l)
ensure_steps-IsFilled null = tt
ensure_steps-IsFilled (boolean b) = tt
ensure_steps-IsFilled (number n) = tt
ensure_steps-IsFilled (real x) = tt
ensure_steps-IsFilled (object x) = tt

clamp-InUnit : (x : Float) → InUnit (clamp x)
unfolding clamp
clamp-InUnit nan = omega arith
clamp-InUnit negative = omega arith
clamp-InUnit (ratio a b) = elim (Bool-cases (float_ltb (ratio a b) (ratio 1 1))) [
  | inr e ↦ rw e (omega arith)
  | inl e ↦ rw e (elim (Bool-cases (float_ltb (ratio 0 1) (ratio a b))) [
    | inr k ↦ rw k (omega arith)
    | inl k ↦ rw k (ground arith)
  ])
]

or_references_some :
    (given : List Reference) (s : Snippet) (l : List Snippet)
    → is_nil (or_references given (s ∷ l)) ≡ false
or_references_some [] s l = refl
or_references_some (r ∷ given) s l = refl

module _ (c : Engine) where
  -- The vector store filters by the alias that it is asked for.
  abbrev pub FiltersAlias : Type 0
  FiltersAlias =
      (alias language : String) (kind : SourceType) (n : ℕ) (l : List Document)
      → c.query_documents alias kind language n ≡ ok l
      → All (λ d. d.alias ≡ alias) l

  -- An answer cites the retrieved chunks, each once and in order, all of active sources; it counts
  -- them, has a reference, no blank step, a confidence from 0 to 1 and the version of the catalog.
  pub record IsGrounded (catalog : SourceCatalog) (r : QueryResponse) : Type 0 where
    pub cites : r.citations ≡ map citation_of (collect_contexts c catalog.sources)
    pub active :
        All
          (λ citation.
            contains (keys alias_of (active_sources catalog.sources)) citation.alias ≡ true)
          r.citations
    pub counted : r.semantic_chunk_count ≡ some (length r.citations)
    pub referenced : is_nil r.references ≡ false
    pub filled : All IsFilled r.steps
    pub confident : InUnit r.confidence
    pub versioned : r.index_version ≡ some ("catalog/v" <> str_nat catalog.version)

  -- Why a query with an index fails: the model raises, it gives no mapping, `json.loads` raises another
  -- error than its own for the response, the response is another JSON value than a mapping, or its
  -- confidence is a whole number that no float holds.
  pub data Fault : Error → Type 0 where
    model_fails : {e : Error} (prompt : String) → c.generate_completion prompt ≡ err e → Fault e
    no_mapping :
        {e : Error} (prompt : String) (completion : Json)
        → c.generate_completion prompt ≡ ok completion
        → is_mapping completion ≡ false
        → Fault e
    unparsed :
        {e : Error} (prompt : String) (p : Dict) (s : String)
        → c.generate_completion prompt ≡ ok (object p)
        → field "response" p ≡ text s
        → c.codec.loads s ≡ err e
        → is_decode_error e ≡ false
        → Fault e
    no_inner :
        {e : Error} (prompt : String) (p : Dict) (s : String) (j : Json)
        → c.generate_completion prompt ≡ ok (object p)
        → field "response" p ≡ text s
        → c.codec.loads s ≡ ok j
        → is_mapping j ≡ false
        → Fault e
    too_confident :
        (prompt : String) (p parsed : Dict) (n : ℕ)
        → c.generate_completion prompt ≡ ok (object p)
        → parse_completion c (field "response" p) ≡ ok (object parsed)
        → field "confidence" parsed ≡ number n
        → float_limit ≤ n
        → Fault overflow_error

  abbrev IsCited : List SourceRecord → Citation → Type 0
  IsCited sources citation = contains (keys alias_of (active_sources sources)) citation.alias ≡ true

  documents-IsCited :
      (sources : List SourceRecord) (alias : String) (l : List Document)
      → contains (keys alias_of (active_sources sources)) alias ≡ true
      → All (λ d. d.alias ≡ alias) l
      → All (IsCited sources) (map citation_of (map (snippet_of c) l))
  unfolding citation_of
  documents-IsCited sources alias [] h k = tt
  documents-IsCited sources alias (d ∷ l) h k = (rw k.0 h, documents-IsCited sources alias l h k.1)

  found-IsCited :
      FiltersAlias
      → (sources : List SourceRecord) (r : SourceRecord)
      → contains (keys alias_of (active_sources sources)) r.alias ≡ true
      → (found : Result (List Document))
      → c.query_documents r.alias r.type r.language (limit c) ≡ found
      → All (IsCited sources) (map citation_of (found_snippets c found))
  found-IsCited filters sources r h (err e) k = tt
  found-IsCited filters sources r h (ok l) k =
      documents-IsCited sources r.alias l h (filters r.alias r.language r.type (limit c) l k)

  -- The contexts of some sources that all stand in the catalog.
  contexts-IsCited :
      FiltersAlias
      → (sources l : List SourceRecord)
      → ((s : String)
          → contains (keys alias_of (active_sources l)) s ≡ true
          → contains (keys alias_of (active_sources sources)) s ≡ true)
      → All (IsCited sources) (map citation_of (collect_contexts c l))
  unfolding collect_contexts
  contexts-IsCited filters sources [] h = tt
  contexts-IsCited filters sources (r ∷ l) h = elim (Bool-cases (is_active r.status)) [
    | inr e ↦ rw e (contexts-IsCited filters sources l (rw e at h))
    | inl e ↦
        let found = c.query_documents r.alias r.type r.language (limit c) in
        rw (e, map-append)
          (All-append (IsCited sources) (map citation_of (found_snippets c found)) _
            (found-IsCited filters sources r (h r.alias (rw (e, str-eq_refl r.alias))) found refl)
            (contexts-IsCited filters sources l (λ s k. h s (rw e (ground (arith, k))))))
  ]

  -- A query of a catalog with an index is answered, or fails by a fault.
  abbrev pub Answers : SourceCatalog → Answer → Type 0
  Answers catalog (answered r) = IsGrounded catalog r
  Answers catalog (declined e) = ⊥
  Answers catalog (raised e) = Fault e

  module _ (filters : FiltersAlias) (request : QueryRequest) (catalog : SourceCatalog) where
    no_documents-IsGrounded :
        collect_contexts c catalog.sources ≡ []
        → IsGrounded catalog (no_documents c request catalog)
    no_documents-IsGrounded none_found = record {
      cites = sym (ap (map citation_of) none_found);
      active = tt;
      counted = refl;
      referenced = refl;
      filled = (refl, tt);
      confident = omega arith;
      versioned = refl;
    }

    respond-IsGrounded :
        (s : Snippet) (l : List Snippet) (parsed : Dict) (x : Float)
        → collect_contexts c catalog.sources ≡ s ∷ l
        → IsGrounded catalog (respond c request catalog (s ∷ l) parsed x)
    unfolding respond build_references build_citations
    respond-IsGrounded s l parsed x found = record {
      cites = sym (ap (map citation_of) found);
      active =
          subst (λ k. All (IsCited catalog.sources) (map citation_of k)) found
            (contexts-IsCited filters catalog.sources catalog.sources (λ a h. h));
      counted = ap (λ n. some (suc n)) (sym (length-map citation_of l));
      referenced = or_references_some (references_in c (field "references" parsed)) s l;
      filled = ensure_steps-IsFilled (field "steps" parsed);
      confident = clamp-InUnit x;
      versioned = refl;
    }

    -- With a mapping inside, only its confidence can fail.
    respond_with-Answers :
        (s : Snippet) (l : List Snippet) (prompt : String) (p parsed : Dict) (j : Json)
        → c.generate_completion prompt ≡ ok (object p)
        → parse_completion c (field "response" p) ≡ ok (object parsed)
        → field "confidence" parsed ≡ j
        → collect_contexts c catalog.sources ≡ s ∷ l
        → Answers catalog
            (respond_with c request catalog (s ∷ l) parsed (safe_float c j (ratio 6 10)))
    unfolding safe_float
    respond_with-Answers s l prompt p parsed (number n) k h m found =
        elim (Bool-cases (ltb n float_limit)) [
          | inl e ↦ rw e (respond-IsGrounded s l parsed (ratio n 1) found)
          | inr e ↦ rw e (too_confident prompt p parsed n k h m (ground arith))
        ]
    respond_with-Answers s l prompt p parsed (boolean true) k h m found =
        respond-IsGrounded s l parsed _ found
    respond_with-Answers s l prompt p parsed (boolean false) k h m found =
        respond-IsGrounded s l parsed _ found
    respond_with-Answers s l prompt p parsed (real x) k h m found =
        respond-IsGrounded s l parsed _ found
    respond_with-Answers s l prompt p parsed (text x) k h m found =
        respond-IsGrounded s l parsed _ found
    respond_with-Answers s l prompt p parsed null k h m found =
        respond-IsGrounded s l parsed _ found
    respond_with-Answers s l prompt p parsed (array x) k h m found =
        respond-IsGrounded s l parsed _ found
    respond_with-Answers s l prompt p parsed (object x) k h m found =
        respond-IsGrounded s l parsed _ found

    mapping-Answers :
        (s : Snippet) (l : List Snippet) (prompt : String) (p parsed : Dict)
        → c.generate_completion prompt ≡ ok (object p)
        → parse_completion c (field "response" p) ≡ ok (object parsed)
        → collect_contexts c catalog.sources ≡ s ∷ l
        → Answers catalog (respond_to c request catalog (s ∷ l) (ok (object parsed)))
    mapping-Answers s l prompt p parsed k h found =
        respond_with-Answers s l prompt p parsed (field "confidence" parsed) k h refl found

    inner-Answers :
        (s : Snippet) (l : List Snippet) (prompt : String) (p : Dict) (t : String) (j : Json)
        → c.generate_completion prompt ≡ ok (object p)
        → field "response" p ≡ text t
        → c.codec.loads t ≡ ok j
        → collect_contexts c catalog.sources ≡ s ∷ l
        → Answers catalog (respond_to c request catalog (s ∷ l) (ok j))
    inner-Answers s l prompt p t (object parsed) k h m found =
        mapping-Answers s l prompt p parsed k (rw (h, m) refl) found
    inner-Answers s l prompt p t j k h m found = no_inner prompt p t j k h m refl

    loaded-Answers :
        (s : Snippet) (l : List Snippet) (prompt : String) (p : Dict) (t : String) (r : Result Json)
        → c.generate_completion prompt ≡ ok (object p)
        → field "response" p ≡ text t
        → c.codec.loads t ≡ r
        → collect_contexts c catalog.sources ≡ s ∷ l
        → Answers catalog (respond_to c request catalog (s ∷ l) (loaded_or_empty c r))
    loaded-Answers s l prompt p t (ok j) k h m found = inner-Answers s l prompt p t j k h m found
    loaded-Answers s l prompt p t (err e) k h m found = elim (Bool-cases (is_decode_error e)) [
      | inl d ↦ rw d (mapping-Answers s l prompt p no_keys k (rw (h, m, d) refl) found)
      | inr d ↦ rw d (unparsed prompt p t k h m d)
    ]

    respond_to-Answers :
        (s : Snippet) (l : List Snippet) (prompt : String) (p : Dict) (j : Json)
        → c.generate_completion prompt ≡ ok (object p)
        → field "response" p ≡ j
        → collect_contexts c catalog.sources ≡ s ∷ l
        → Answers catalog (respond_to c request catalog (s ∷ l) (parse_completion c j))
    respond_to-Answers s l prompt p (object parsed) k h found =
        mapping-Answers s l prompt p parsed k (rw h refl) found
    respond_to-Answers s l prompt p (text t) k h found =
        loaded-Answers s l prompt p t (c.codec.loads t) k h refl found
    respond_to-Answers s l prompt p _ k h found =
        mapping-Answers s l prompt p no_keys k (rw h refl) found

    respond_body-Answers :
        (s : Snippet) (l : List Snippet) (prompt : String) (completion : Json)
        → c.generate_completion prompt ≡ ok completion
        → collect_contexts c catalog.sources ≡ s ∷ l
        → Answers catalog (respond_body c request catalog (s ∷ l) (get completion "response"))
    respond_body-Answers s l prompt (object p) k found =
        respond_to-Answers s l prompt p (field "response" p) k refl found
    respond_body-Answers s l prompt completion k found = no_mapping prompt completion k refl

    completed_with-Answers :
        (s : Snippet) (l : List Snippet) (prompt : String) (r : Result Json)
        → c.generate_completion prompt ≡ r
        → collect_contexts c catalog.sources ≡ s ∷ l
        → Answers catalog (completed_with c request catalog (s ∷ l) r)
    completed_with-Answers s l prompt (err e) k found = model_fails prompt k
    completed_with-Answers s l prompt (ok completion) k found =
        respond_body-Answers s l prompt completion k found

    ask-Answers :
        (contexts : List Snippet)
        → collect_contexts c catalog.sources ≡ contexts
        → Answers catalog (ask c request catalog contexts)
    ask-Answers [] found = no_documents-IsGrounded found
    ask-Answers (s ∷ l) found =
        completed_with-Answers s l (render_prompt request.question (s ∷ l))
          (c.generate_completion (render_prompt request.question (s ∷ l))) refl found

-- On a catalog that loads, with a vector store that filters by the alias: if the catalog has no
-- version or no snapshot the query is declined with INDEX_MISSING. Otherwise it is answered, or it
-- fails: because the model raises, or gives no mapping, or a response text of some other JSON value, or
-- one for which `json.loads` raises another error than JSONDecodeError, or a confidence beyond the
-- floats. The citations of an answer are the retrieved chunks, in order, all of active sources; it counts them, has at
-- least one reference, no blank step, a confidence from 0 to 1 and the version of the catalog.
pub query_grounded :
    (c : Engine) (request : QueryRequest) (catalog : SourceCatalog)
    → c.load ≡ ok catalog
    → FiltersAlias c
    → (((leb catalog.version 0 || is_nil catalog.snapshots) ≡ true)
        × (query c request ≡ declined (index_missing c)))
      ⊎ (((leb catalog.version 0 || is_nil catalog.snapshots) ≡ false)
          × ((a : Answer) × (query c request ≡ a) × Answers c catalog a))
unfolding query
query_grounded c request catalog loaded filters =
    elim (Bool-cases (leb catalog.version 0 || is_nil catalog.snapshots)) [
      | inl e ↦ inl (e, rw (loaded, e))
      | inr e ↦ inr (
        e,
        (
          ask c request catalog (collect_contexts c catalog.sources),
          rw (loaded, e),
          ask-Answers c filters request catalog (collect_contexts c catalog.sources) refl,
        ),
      )
    ]
