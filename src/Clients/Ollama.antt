-- ===== src/Clients/Ollama.antt =====
-- `OllamaAdapter` of backend/src/adapters/ollama/client.py over what the service answers. Spans, times
-- and metrics are left out.
pub mod Aligned
use linux_rag_t.Prelude.{
  length, eqb, if◌then◌else◌, map, ◌<>◌, ℕ, none, some, ok, err, [], ◌∷◌, List, Option, Result,
  String, value_error, ◌>>=◌,
}
use linux_rag_t.Json.{
  no_keys, Dict, lookup, Json, Codec, attribute_error, get_default, int_of, is_true, items_of,
  json_dict, json_list, or_json, text_of, null, text, object, number,
}
use linux_rag_t.Chunking.{Document}

pub record EmbeddingResult : Type 0 where
  pub alias : String
  pub checksum : String
  pub chunk_id : ℕ
  pub embedding : List Json

-- `body.get("embeddings")`, or else the single `embedding`.
abbrev pub one_embedding : Option Json → Option Json
one_embedding none = none
one_embedding (some j) = some (json_list (j ∷ []))

abbrev pub given_embeddings : Option Json → Option Json → Option Json
given_embeddings none single = one_embedding single
given_embeddings (some null) single = one_embedding single
given_embeddings (some j) single = some j

abbrev pub error_text : Codec → Json → String
error_text c j = if is_true j then text_of c j else "embedding response must include 'embeddings'"

abbrev pub some_embeddings : Codec → Dict → Option Json → Result Json
some_embeddings c p none = err (value_error (error_text c (or_json (lookup "error" p) null)))
some_embeddings c p (some j) = ok j

abbrev pub embeddings_of : Codec → Json → Result Json
embeddings_of c (object p) =
    some_embeddings c p (given_embeddings (lookup "embeddings" p) (lookup "embedding" p))
embeddings_of c _ = err attribute_error

abbrev pub result_of : Document → List Json → EmbeddingResult
result_of d vector = record {
  alias = d.alias;
  checksum = d.checksum;
  chunk_id = d.chunk_id;
  embedding = vector;
}

-- The loop over both lists, of one length.
unfoldable pub map_results : List Document → List Json → Result (List EmbeddingResult)
map_results [] vectors = ok []
map_results (d ∷ l) [] = ok []
map_results (d ∷ l) (v ∷ vectors) = do
  vector ← items_of v
  rest ← map_results l vectors
  ok (result_of d vector ∷ rest)

abbrev pub counted_results : List Document → List Json → Result (List EmbeddingResult)
counted_results documents vectors =
    if eqb (length vectors) (length documents)
    then map_results documents vectors
    else err (value_error "embedding count must match input document count")

module _ (c : Codec) (post : String → Json → Result Json) (base_url model : String) where
  abbrev pub input_payload : List Document → Json
  input_payload l =
      json_dict (("model", text model) ∷ ("input", json_list (map (λ d. text d.text) l)) ∷ [])

  abbrev pub embed_all : List Document → Result (List EmbeddingResult)
  embed_all documents = do
    body ← post (base_url <> "/api/embed") (input_payload documents)
    embeddings ← embeddings_of c body
    vectors ← items_of embeddings
    counted_results documents vectors

  unfoldable pub embed_documents : List Document → Result (List EmbeddingResult)
  unfolding map_results
  embed_documents [] = ok []
  embed_documents (d ∷ l) = embed_all (d ∷ l)

  -- `if options: payload["options"] = options`
  abbrev pub options_entry : Dict → List (String × Json)
  options_entry no_keys = []
  options_entry options = ("options", object options) ∷ []

  -- The counts of tokens go to the metrics; they have to be numbers.
  unfoldable pub generate_completion : String → Dict → Result Json
  generate_completion prompt options = do
    body ←
        post (base_url <> "/api/generate")
          (json_dict (("model", text model) ∷ ("prompt", text prompt) ∷ options_entry options))
    prompt_count ← get_default body "prompt_eval_count" (number 0)
    prompt_tokens ← int_of c prompt_count
    completion_count ← get_default body "eval_count" (number 0)
    completion_tokens ← int_of c completion_count
    ok body

-- The names that tie an embedding to its document.
abbrev pub Names : Type 0
Names = String × String × ℕ

abbrev pub names_of : EmbeddingResult → Names
names_of r = (r.alias, r.checksum, r.chunk_id)

abbrev pub document_names : Document → Names
document_names d = (d.alias, d.checksum, d.chunk_id)
