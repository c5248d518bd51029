-- ===== src/Query/Verdict.antt =====
-- Which answers the runner passes on.
use linux_rag_t.Prelude.{
  ◌∙◌, sym, ◌&&◌, refl, Bool, lt→ltb, chars, ◌||◌, strip, nonempty, not, starts_with, ltb, ◌↔◌, ◌⊎◌,
  ◌*◌, ◌<◌, ℕ, ◌≤◌, none, some, inl, inr, ok, err, true, false, [], arith, ◌∷◌, Bool-cases, List,
  Option, Result, String, runtime_error, ◌≡◌,
}
use linux_rag_t.Query.{
  float_leb, mentions, accept, after_colon, candidate_of, nan, negative, ratio, absent, unreadable,
  lines, adjust, run, threshold, ConfigFile, Float, QueryRequest, QueryResponse, budget_message,
  default_threshold, float_ltb, load_confidence_threshold, parse_confidence_threshold,
  validate_confidence_threshold,
}

-- A number from 0 to 1.
abbrev pub InUnit : Float → Type 0
InUnit nan = ⊥
InUnit negative = ⊥
InUnit (ratio a b) = a ≤ b

validate-InUnit :
    (o : Option Float) (d : Float) → InUnit d → InUnit (validate_confidence_threshold o d)
unfolding validate_confidence_threshold
validate-InUnit none d h = h
validate-InUnit (some nan) d h = h
validate-InUnit (some negative) d h = h
validate-InUnit (some (ratio a b)) d h =
    elim (Bool-cases (float_leb (ratio 0 1) (ratio a b) && float_leb (ratio a b) (ratio 1 1))) [
      | inl e ↦ rw e (ground arith)
      | inr e ↦ rw e h
    ]

accept-InUnit :
    (o : Option Float) (rest d : Float) → InUnit rest → InUnit d → InUnit (accept o rest d)
accept-InUnit none rest d h k = h
accept-InUnit (some candidate) rest d h k = validate-InUnit (some candidate) d k

parse-InUnit :
    (parse_float : String → Option Float) (l : List String) (d : Float)
    → InUnit d
    → InUnit (parse_confidence_threshold parse_float l d)
unfolding parse_confidence_threshold
parse-InUnit parse_float [] d h = h
parse-InUnit parse_float (line ∷ l) d h =
    elim (Bool-cases (not (nonempty (strip line)) || starts_with (strip line) "#")) [
      | inl e ↦ rw e (parse-InUnit parse_float l d h)
      | inr e ↦ rw e (elim (Bool-cases (mentions (strip line))) [
        | inr k ↦ rw k (parse-InUnit parse_float l d h)
        | inl k ↦ rw k (
            accept-InUnit (candidate_of parse_float (after_colon (chars (strip line))))
              (parse_confidence_threshold parse_float l d) d (parse-InUnit parse_float l d h) h)
      ])
    ]

-- Whatever the configuration file holds and whatever threshold is asked for, the runner works with a
-- threshold from 0 to 1.
pub threshold-InUnit :
    (parse_float : String → Option Float) (file : ConfigFile) (asked : Option Float)
    → InUnit (threshold parse_float file asked)
unfolding threshold load_confidence_threshold
threshold-InUnit parse_float file (some candidate) =
    validate-InUnit (some candidate) default_threshold (omega arith)
threshold-InUnit parse_float absent none = omega arith
threshold-InUnit parse_float unreadable none = omega arith
threshold-InUnit parse_float (lines l) none =
    parse-InUnit parse_float l default_threshold (omega arith)

-- What is shown: the answer of the port with its budget and threshold noted, or none at all.
abbrev pub Shown : Float → QueryResponse → QueryResponse → Type 0
Shown limit response r =
    r ≡ record response { context_truncated = false; confidence_threshold = some limit }

abbrev pub Withheld : QueryResponse → Type 0
Withheld r =
    (r.no_answer ≡ true)
    × (r.answer ≡ none)
    × (r.steps ≡ [])
    × (r.references ≡ [])
    × (r.citations ≡ [])

adjust-Shown :
    (limit : Float) (response : QueryResponse)
    → float_ltb response.confidence limit ≡ false
    → Shown limit response (adjust limit false response)
unfolding adjust
adjust-Shown limit response h = rw h refl

adjust-Withheld :
    (limit : Float) (truncated : Bool) (response : QueryResponse)
    → (truncated ≡ true) ⊎ (float_ltb response.confidence limit ≡ true)
    → Withheld (adjust limit truncated response)
unfolding adjust
adjust-Withheld limit true response h = (refl, refl, refl, refl, refl)
adjust-Withheld limit false response (inl h) = absurd (ground arith)
adjust-Withheld limit false response (inr h) = rw h (refl, refl, refl, refl, refl)

adjust-truncated :
    (limit : Float) (truncated : Bool) (response : QueryResponse)
    → (adjust limit truncated response).context_truncated ≡ truncated
unfolding adjust
adjust-truncated limit true response = refl
adjust-truncated limit false response = elim (Bool-cases (float_ltb response.confidence limit)) [
  | inl h ↦ rw h refl
  | inr h ↦ rw h refl
]

-- For a port that answers: if the retrieved context has at least twice the tokens of a positive
-- budget, `run` raises. Otherwise it returns; where the context fits and the confidence reaches the
-- threshold, the answer of the port, and else a response without answer, steps, references and
-- citations, in which `context_truncated` tells whether it was the context that did not fit.
pub run_cases :
    (query : QueryRequest → Result QueryResponse) (limit : Float) (request : QueryRequest)
    (retrieved : ℕ) (response : QueryResponse)
    → query request ≡ ok response
    → 0 < request.max_context_tokens
    → (2 * request.max_context_tokens ≤ retrieved
        → run query limit request (some retrieved) ≡ err (runtime_error budget_message))
      × (retrieved < 2 * request.max_context_tokens
          → (r : QueryResponse) × (run query limit request (some retrieved) ≡ ok r)
            × (retrieved ≤ request.max_context_tokens
                → float_ltb response.confidence limit ≡ false
                → Shown limit response r)
            × ((request.max_context_tokens < retrieved)
                  ⊎ (float_ltb response.confidence limit ≡ true)
                → Withheld r)
            × ((r.context_truncated ≡ true) ↔ (request.max_context_tokens < retrieved)))
unfolding run
run_cases query limit request retrieved response h m = (
  λ big. ground arith,
  λ small. (
    adjust limit (ltb request.max_context_tokens retrieved) response,
    ground (arith, h),
    (λ fits sure. rw (not_ltb fits) (adjust-Shown limit response sure)),
    (λ bad.
        adjust-Withheld limit (ltb request.max_context_tokens retrieved) response
          (elim bad [ inl b ↦ inl (ground arith) | inr b ↦ inr b ])),
    (
      λ e.
          (let t : ltb request.max_context_tokens retrieved ≡ true =
              sym (adjust-truncated limit (ltb request.max_context_tokens retrieved) response)
              ∙ e in
            ground arith),
      λ b.
          adjust-truncated limit (ltb request.max_context_tokens retrieved) response
          ∙ lt→ltb request.max_context_tokens retrieved b,
    ),
  ),
)
  where
    not_ltb :
        retrieved ≤ request.max_context_tokens → ltb request.max_context_tokens retrieved ≡ false
    not_ltb fits = ground arith
