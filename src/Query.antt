-- ===== src/Query.antt =====
-- `QueryRunner` of backend/src/application/query_runner.py, with the types of backend/src/ports/query.py.
-- Token counts are not negative. Traces are left out.
pub mod Verdict
pub mod Engine
use linux_rag_t.Prelude.{
  eqb, ◌>>=◌, ◌||◌, nonempty, not, ◌&&◌, ◌*◌, ◌-◌, ◌==◌, chars, if◌then◌else◌, leb, ltb, strip, ℕ,
  none, some, ok, err, true, false, [], ◌∷◌, Bool, Char, List, Option, Result, String, of_chars,
  runtime_error, starts_with, ◌≡◌,
}
use Prim.Native.Char.{code}

-- A Python float: not a number, a negative one, or the exact fraction of two numbers. Infinity is a
-- fraction over 0.
pub data Float : Type 0 where
  nan : Float
  negative : Float
  ratio : ℕ → ℕ → Float

-- `a <= b` and `a < b`, where not both are negative.
abbrev pub float_leb : Float → Float → Bool
float_leb nan b = false
float_leb a nan = false
float_leb negative b = true
float_leb (ratio a b) negative = false
float_leb (ratio a b) (ratio x y) = leb (a * y) (x * b)

abbrev pub float_ltb : Float → Float → Bool
float_ltb nan b = false
float_ltb a nan = false
float_ltb a negative = false
float_ltb negative (ratio x y) = true
float_ltb (ratio a b) (ratio x y) = ltb (a * y) (x * b)

pub record Reference : Type 0 where
  pub label : String
  pub url : Option String
  pub notes : Option String

pub record Citation : Type 0 where
  pub alias : String
  pub document_ref : String
  pub excerpt : Option String

pub record QueryRequest : Type 0 where
  pub question : String
  pub conversation_id : Option String
  pub max_context_tokens : ℕ
  pub trace_id : Option String

pub record QueryResponse : Type 0 where
  pub summary : String
  pub steps : List String
  pub references : List Reference
  pub citations : List Citation
  pub confidence : Float
  pub trace_id : String
  pub latency_ms : ℕ
  pub retrieval_latency_ms : Option ℕ
  pub llm_latency_ms : Option ℕ
  pub index_version : Option String
  pub answer : Option String
  pub no_answer : Bool
  pub semantic_chunk_count : Option ℕ
  pub context_truncated : Bool
  pub confidence_threshold : Option Float
  pub stale_index_detected : Bool
  pub backend_correlation_id : Option String

abbrev pub default_threshold : Float
default_threshold = ratio 35 100

unfoldable pub validate_confidence_threshold : Option Float → Float → Float
validate_confidence_threshold none default = default
validate_confidence_threshold (some candidate) default =
    if float_leb (ratio 0 1) candidate && float_leb candidate (ratio 1 1)
    then candidate
    else default

-- What stands behind the first colon.
pub after_colon : List Char → Option (List Char)
after_colon [] = none
after_colon (c ∷ l) = let rest = after_colon l in if eqb (code c) 58 then some l else rest

is_prefix : List Char → List Char → Bool
is_prefix [] l = true
is_prefix (c ∷ p) [] = false
is_prefix (c ∷ p) (d ∷ l) =
    let rest = is_prefix p l in if eqb (code c) (code d) then rest else false

unfoldable pub infix_of : List Char → List Char → Bool
unfolding is_prefix
infix_of p [] = is_prefix p []
infix_of p (c ∷ l) = let rest = infix_of p l in if is_prefix p (c ∷ l) then true else rest

-- `"confidence_threshold" in stripped`
pub mentions : String → Bool
unfolding infix_of
mentions s = infix_of (chars "confidence_threshold") (chars s)

abbrev pub candidate_of : (String → Option Float) → Option (List Char) → Option Float
candidate_of parse_float none = none
candidate_of parse_float (some value) = parse_float (strip (of_chars value))

-- The candidate of a line ends the search, valid or not.
abbrev pub accept : Option Float → Float → Float → Float
accept none rest default = rest
accept (some candidate) rest default = validate_confidence_threshold (some candidate) default

-- Over the lines of the file. `parse_float` is Python's `float`, `none` where it raises `ValueError`.
unfoldable pub parse_confidence_threshold : (String → Option Float) → List String → Float → Float
unfolding validate_confidence_threshold after_colon mentions
parse_confidence_threshold parse_float [] default = default
parse_confidence_threshold parse_float (line ∷ l) default =
    let rest = parse_confidence_threshold parse_float l default in
    let stripped = strip line in
    if not (nonempty stripped) || starts_with stripped "#"
    then rest
    else if not (mentions stripped)
    then rest
    else accept (candidate_of parse_float (after_colon (chars stripped))) rest default

-- The file is missing, cannot be read, or has these lines.
pub data ConfigFile : Type 0 where
  absent unreadable : ConfigFile
  lines : List String → ConfigFile

unfoldable pub load_confidence_threshold : (String → Option Float) → ConfigFile → Float → Float
unfolding parse_confidence_threshold
load_confidence_threshold parse_float absent default = default
load_confidence_threshold parse_float unreadable default = default
load_confidence_threshold parse_float (lines l) default =
    parse_confidence_threshold parse_float l default

-- The threshold that the constructor computes.
unfoldable pub threshold : (String → Option Float) → ConfigFile → Option Float → Float
unfolding load_confidence_threshold validate_confidence_threshold
threshold parse_float file none = load_confidence_threshold parse_float file default_threshold
threshold parse_float file (some candidate) =
    validate_confidence_threshold (some candidate) default_threshold

abbrev pub low_confidence_guidance : String
low_confidence_guidance =
    "Answer is below the confidence threshold. Please rephrase your query or refresh sources via ragadmin."

abbrev pub context_truncation_message : String
context_truncation_message =
    "The retrieved context exceeded the configured token budget and was truncated. Please narrow your question or increase the --context-tokens limit."

abbrev pub budget_message : String
budget_message =
    "retrieved context exceeds the allowed token budget; reduce the question scope or increase --context-tokens"

-- Whether the retrieved context is larger than the budget.
abbrev pub overflows : ℕ → Option ℕ → Bool
overflows max none = false
overflows max (some retrieved) = ltb max retrieved

abbrev pub overflow_of : ℕ → Option ℕ → ℕ
overflow_of max none = 0
overflow_of max (some retrieved) = retrieved - max

abbrev pub withheld : String → QueryResponse → QueryResponse
withheld summary r = record r {
  summary = summary;
  steps = [];
  references = [];
  citations = [];
  no_answer = true;
  answer = none;
}

unfoldable pub adjust : Float → Bool → QueryResponse → QueryResponse
adjust limit truncated response =
    let adjusted = record response {
      context_truncated = truncated;
      confidence_threshold = some limit;
    } in
    if truncated
    then withheld context_truncation_message adjusted
    else if float_ltb adjusted.confidence limit
    then withheld low_confidence_guidance adjusted
    else adjusted

unfoldable pub run :
    (QueryRequest → Result QueryResponse) → Float → QueryRequest → Option ℕ → Result QueryResponse
unfolding adjust
run query limit request retrieved =
    let max = request.max_context_tokens in
    let truncated = overflows max retrieved in
    if truncated && leb (max * (2 - 1)) (overflow_of max retrieved)
    then err (runtime_error budget_message)
    else do response ← query request; ok (adjust limit truncated response)
