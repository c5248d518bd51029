-- ===== src/Clients/Weaviate.antt =====
-- `WeaviateAdapter` of backend/src/adapters/weaviate/client.py. An embedding is a JSON value, null if
-- there is none. Times, metrics and log lines are left out, but for the counts that the metrics get.
pub mod Stored
use linux_rag_t.Prelude.{
  ◌||◌, nonempty, ◌+◌, not, ◌==◌, if◌then◌else◌, ℕ, ◌++◌, ◌<>◌, none, some, ok, err, [], ◌∷◌, List,
  Option, Result, String, value_error, ◌>>=◌,
}
use linux_rag_t.Json.{
  get, lookup, Json, Codec, int_of, json_dict, text_of, type_error, null, text, object, number,
}
use linux_rag_t.Storage.{source_type}
use linux_rag_t.Ports.Ingestion.{SourceType, type_value}
use linux_rag_t.Prelude.Decimal.{str_nat}
use linux_rag_t.Chunking.{Document}

-- A document with its embedding.
abbrev pub Embedded : Type 0
Embedded = Document × Json

-- `if document.embedding is not None`
abbrev pub embedding_entry : Json → List (String × Json)
embedding_entry null = []
embedding_entry j = ("embedding", j) ∷ []

unfoldable pub document_payload : Embedded → Json
document_payload (d, embedding) = json_dict (
    ("text", text d.text)
    ∷ ("source_alias", text d.alias)
    ∷ ("source_type", text (type_value d.source_type))
    ∷ ("language", text d.language)
    ∷ ("checksum", text d.checksum)
    ∷ ("chunk_id", number d.chunk_id)
    ∷ embedding_entry embedding)

-- `payload[key]`, where a missing key becomes a `ValueError`.
abbrev pub required_in : Option Json → Result Json
required_in none = err (value_error "query result missing required field")
required_in (some j) = ok j

abbrev pub required : Json → String → Result Json
required (object p) key = required_in (lookup key p)
required _ key = err type_error

unfoldable pub document_from_properties : Codec → Json → Result Embedded
document_from_properties c payload = do
  alias ← required payload "source_alias"
  checksum ← required payload "checksum"
  chunk_id ← required payload "chunk_id" >>= int_of c
  content ← required payload "text"
  kind ← required payload "source_type" >>= (λ j. source_type c (text (text_of c j)))
  language ← required payload "language"
  embedding ← get payload "embedding"
  ok (
    record {
      alias = text_of c alias;
      checksum = text_of c checksum;
      chunk_id = chunk_id;
      text = text_of c content;
      source_type = kind;
      language = text_of c language;
    },
    embedding,
  )

-- `alias_counts[alias] = alias_counts.get(alias, 0) + 1`
unfoldable pub count_alias : String → List (String × ℕ) → List (String × ℕ)
count_alias alias [] = (alias, 1) ∷ []
count_alias alias ((a, n) ∷ l) =
    let rest = count_alias alias l in if a == alias then (a, n + 1) ∷ l else (a, n) ∷ rest

-- How the client offers a batch: not at all, without `add_object` or a context, or usable.
pub data Batch : Type 0 where
  no_batch no_add_object no_context usable : Batch

-- The objects that were added, with their identifiers, and the counts that the metrics get.
pub record Ingested : Type 0 where
  pub added : List (String × Json)
  pub counts : List (String × ℕ)

module _ (uuid5 : String → String) where
  abbrev pub document_id : Document → String
  document_id d = uuid5 (d.alias <> ":" <> d.checksum <> ":" <> str_nat d.chunk_id)

  abbrev pub add_document : Ingested → Embedded → Ingested
  add_document s (d, embedding) = record {
    added = s.added ++ (document_id d, document_payload (d, embedding)) ∷ [];
    counts = count_alias d.alias s.counts;
  }

  -- The loop over the documents.
  unfoldable pub add_documents : Ingested → List Embedded → Ingested
  unfolding count_alias document_payload
  add_documents s [] = s
  add_documents s (d ∷ l) = add_documents (add_document s d) l

  abbrev pub nothing_ingested : Ingested
  nothing_ingested = record { added = []; counts = [] }

  abbrev pub ingest_in : Batch → List Embedded → Result Ingested
  ingest_in no_batch l = err (value_error "Weaviate client must expose a 'batch' context manager")
  ingest_in no_add_object l = err (value_error "Weaviate batch context missing add_object")
  ingest_in no_context l = err (value_error "Weaviate client must expose a 'batch' context manager")
  ingest_in usable l = ok (add_documents nothing_ingested l)

  unfoldable pub ingest : Batch → List Embedded → Result Ingested
  unfolding add_documents
  ingest batch [] = ok nothing_ingested
  ingest batch (d ∷ l) = ingest_in batch (d ∷ l)

-- `[self._document_from_properties(…) for …]`
unfoldable pub documents_from : Codec → List Json → Result (List Embedded)
unfolding document_from_properties
documents_from c [] = ok []
documents_from c (j ∷ l) = do
  d ← document_from_properties c j
  rest ← documents_from c l
  ok (d ∷ rest)

-- What the store gives for the three filters and the limit.
abbrev pub Fetch : Type 0
Fetch = String → String → String → ℕ → Result (List Json)

unfoldable pub query_documents :
    Codec → Fetch → String → SourceType → String → ℕ → Result (List Embedded)
unfolding documents_from
query_documents c fetch alias kind language n =
    if not (nonempty alias) || not (nonempty language)
    then err (value_error "alias and language must be provided")
    else fetch alias (type_value kind) language n >>= documents_from c
