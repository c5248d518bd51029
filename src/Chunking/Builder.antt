-- ===== src/Chunking/Builder.antt =====
-- `_ChunkBuilderAdapter` of backend/src/adapters/transport/handlers/chunking/builder.py: the documents
-- of a source are embedded and ingested one at a time.
use linux_rag_t.Prelude.{
  ◌++◌, any, ◌+◌, ◌||◌, message, not, ◌%◌, if◌then◌else◌, ◌&&◌, ◌<>◌, eqb, length, ℕ, ◌==◌, none,
  some, ok, err, [], ◌∷◌, Bool, Error, List, Option, Result, String, is_nil, runtime_error,
}
use linux_rag_t.Chunking.{Document}

pub record Embedding (V : Type 0) : Type 0 where
  pub alias : String
  pub checksum : String
  pub chunk_id : ℕ
  pub embedding : List V

-- The two adapters, which may raise, and the heartbeat: whether a second has passed since the last
-- progress call, by the number of processed documents, in the loop and behind it.
pub record Adapters (V : Type 0) : Type 0 where
  pub embed : Document → Result (List (Embedding V))
  pub ingest : Document → Option Error
  pub on_progress : Bool
  pub due : ℕ → Bool
  pub due_at_end : Bool

pub record Build : Type 0 where
  pub ingested : List Document
  pub processed : ℕ
  pub calls : List (ℕ × ℕ)

abbrev pub Round : Type 0
Round = Option Error × Build

abbrev pub then_round : Round → (Build → Round) → Round
then_round (none, b) f = f b
then_round (some e, b) f = (some e, b)

module _ {V : Type 0} where
  -- `_attach_embeddings`: the last result with the key of the document.
  unfoldable pub vector_of : Document → List (Embedding V) → List V
  vector_of d [] = []
  vector_of d (e ∷ l) =
      let rest = vector_of d l in if not (any (is_for d) l) && is_for d e then e.embedding else rest
    where
      is_for : Document → Embedding V → Bool
      is_for d e = e.alias == d.alias && e.checksum == d.checksum && eqb e.chunk_id d.chunk_id

  -- Whether the results for a document are one, and a vector that is not empty.
  unfoldable pub is_embedded : Document → List (Embedding V) → Bool
  unfolding vector_of
  is_embedded d results = eqb (length results) 1 && not (is_nil (vector_of d results))

  module _ (c : Adapters V) (total : ℕ) where
    abbrev pub emit : Bool → Build → Build
    emit due b =
        if c.on_progress && (eqb (b.processed % 10) 0 || due)
        then record b { calls = b.calls ++ (b.processed, total) ∷ [] }
        else b

    abbrev pub ingest_one : Document → Option Error → Build → Round
    ingest_one d (some e) b =
        (some (runtime_error ("vector ingestion failed for " <> d.alias <> ": " <> message e)), b)
    ingest_one d none b = (
      none,
      emit (c.due (b.processed + 1))
          (record b { ingested = b.ingested ++ d ∷ []; processed = b.processed + 1 }),
    )

    abbrev pub embed_one : Document → Result (List (Embedding V)) → Build → Round
    embed_one d (err e) b =
        (some (runtime_error ("embedding failed for " <> d.alias <> ": " <> message e)), b)
    embed_one d (ok results) b =
        if is_embedded d results then ingest_one d (c.ingest d) b else (none, b)

    -- The loop.
    unfoldable pub build_all : List Document → Build → Round
    build_all [] b = (none, b)
    build_all (d ∷ l) b = then_round (embed_one d (c.embed d) b) (build_all l)

    abbrev pub finished : List Document → Round → Result (List Document) × Build
    finished docs (some e, b) = (err e, b)
    finished docs (none, b) = (ok docs, emit c.due_at_end b)

abbrev pub empty_build : Build
empty_build = record { ingested = []; processed = 0; calls = [] }

-- `__call__`, once the documents are there.
unfoldable pub build_documents :
    {V : Type 0} → Adapters V → List Document → Result (List Document) × Build
unfolding build_all
build_documents c [] = (ok [], empty_build)
build_documents c (d ∷ l) =
    finished c (length (d ∷ l)) (d ∷ l) (build_all c (length (d ∷ l)) (d ∷ l) empty_build)

-- `__call__`, on what `_generate_documents` gives, which is collected before anything is embedded.
unfoldable pub build :
    {V : Type 0} → Adapters V → List Document × Option Error → Result (List Document) × Build
unfolding build_documents
build c (docs, some e) = (err e, empty_build)
build c (docs, none) = build_documents c docs
