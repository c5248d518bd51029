-- ===== src/Tests/Chunking.antt =====
-- Chunks of small files, and a build in which one document has no vector.
use linux_rag_t.Prelude.{
  Option, err, Error, other_error, chars, keep, eqb, length, ◌==◌, if◌then◌else◌, map, strip, ℕ,
  refl, none, some, ok, true, [], ◌∷◌, All, List, String, is_space, of_chars, ◌≡◌,
}
use linux_rag_t.Chunking.{
  whole, corrupt, unreadable, FileText, directory, Document, Place, Source, chunk_text, document_of,
  generate_documents, join_words, split_words,
}
use linux_rag_t.Chunking.Ingested.{embeds, Within, build-ingested}
use linux_rag_t.Chunking.Words.{concat, Fits, chunk_text-words}
use linux_rag_t.Ports.Ingestion.{man}
use linux_rag_t.Chunking.Builder.{build, Adapters}
use linux_rag_t.Chunking.Ids.{count_from, generate_documents-ids, id_of}

words_cut : chunk_text " one two\nthree  four five" 2 ≡ "one two" ∷ "three four" ∷ "five" ∷ []
unfolding chunk_text is_space of_chars
words_cut = refl

chunk_text-words_example :
    (groups : List (List String)) × (chunk_text "one two three" 2 ≡ map join_words groups)
    × (concat groups ≡ map of_chars (split_words (chars "one two three")))
    × All (Fits 2) groups
chunk_text-words_example = chunk_text-words "one two three" 2

abbrev manual : Source
manual = record { alias = "man"; checksum = "x"; source_type = man }

abbrev read : String → FileText
read path =
    if path == "bad"
    then unreadable
    else if path == "torn"
    then corrupt (other_error "EOFError")
    else whole path

abbrev place : Place String
place = directory ("a b c" ∷ "bad" ∷ "d" ∷ "torn" ∷ "e" ∷ [])

abbrev docs : List Document
docs = document_of manual 0 "a b" ∷ document_of manual 1 "c" ∷ document_of manual 2 "d" ∷ []

generated : generate_documents read manual place 2 3 ≡ (docs, none)
unfolding generate_documents is_space strip of_chars
generated = refl

-- A corrupt file ends the generation.
interrupted : generate_documents read manual place 2 5 ≡ (docs, some (other_error "EOFError"))
unfolding generate_documents is_space strip of_chars
interrupted = refl

generate_documents-ids_example :
    map id_of (generate_documents read manual place 2 3).0
    ≡ count_from 0 (length (generate_documents read manual place 2 3).0)
generate_documents-ids_example = generate_documents-ids read manual place 2 3

-- Document 1 gets no result.
abbrev adapters : Adapters ℕ
adapters = record {
  embed = λ d. ok (
      if eqb d.chunk_id 1
      then []
      else record {
        alias = d.alias;
        checksum = d.checksum;
        chunk_id = d.chunk_id;
        embedding = 7 ∷ [];
      }
        ∷ []);
  ingest = λ d. none;
  on_progress = true;
  due = λ n. true;
  due_at_end = true;
}

-- No file raises.
abbrev read_well : Option Error
read_well = none

build-ingested_example :
    ((build adapters (docs, read_well)).1.processed
      ≡ length (build adapters (docs, read_well)).1.ingested)
    × All (Within 3) (build adapters (docs, read_well)).1.calls
    × ((r : List Document)
        → (build adapters (docs, read_well)).0 ≡ ok r
        → (read_well ≡ none)
          × (r ≡ docs)
          × ((build adapters (docs, read_well)).1.ingested ≡ keep (embeds adapters) docs))
    × ((e : Error)
        → read_well ≡ some e
        → ((build adapters (docs, read_well)).0 ≡ err e)
          × ((build adapters (docs, read_well)).1.ingested ≡ []))
build-ingested_example = build-ingested adapters docs read_well
