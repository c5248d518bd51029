-- ===== src/Chunking.antt =====
-- backend/src/adapters/transport/handlers/chunking: from the files of a source to the chunks in the
-- vector store. The files, their texts and the two adapters are arguments; logging is left out.
pub mod Builder
pub mod Words
pub mod Ids
pub mod Ingested
use linux_rag_t.Prelude.{
  Error, length, chars, eqb, leb, nonempty, map, strip, take, ◌++◌, ◌+◌, if◌then◌else◌, not, ℕ,
  ◌<>◌, none, some, true, false, [], ◌∷◌, Bool, List, Option, String, is_nil, is_space, of_chars,
  ◌≡◌,
}
use linux_rag_t.Ports.Ingestion.{SourceType}
use Prim.Native.Char.{Char, code}

-- `text.split()`: a character joins the word behind it or starts one.
abbrev add_char : Char → Bool → List (List Char) → List (List Char)
add_char c true [] = (c ∷ []) ∷ []
add_char c true (w ∷ l) = (c ∷ w) ∷ l
add_char c false l = (c ∷ []) ∷ l

abbrev starts_word : List Char → Bool
starts_word [] = false
starts_word (c ∷ l) = not (is_space c)

unfoldable pub split_words : List Char → List (List Char)
split_words [] = []
split_words (c ∷ l) =
    let rest = split_words l in if is_space c then rest else add_char c (starts_word l) rest

-- The loop of `_chunk_text` over the words, from the words of the open chunk.
unfoldable pub chunk_words : ℕ → List String → List String → List (List String)
chunk_words max_tokens chunk [] = if is_nil chunk then [] else chunk ∷ []
chunk_words max_tokens chunk (w ∷ l) =
    let grown = chunk ++ w ∷ [] in
    let closed = chunk_words max_tokens [] l in
    let open_one = chunk_words max_tokens grown l in
    if leb max_tokens (length grown) then grown ∷ closed else open_one

pub join_words : List String → String
join_words [] = ""
join_words (x ∷ []) = x
join_words (x ∷ y ∷ rest) = x <> " " <> join_words (y ∷ rest)

-- `_chunk_text`
unfoldable pub chunk_text : String → ℕ → List String
unfolding chunk_words split_words join_words
chunk_text s max_tokens =
    map join_words (chunk_words max_tokens [] (map of_chars (split_words (chars s))))

pub record Document : Type 0 where
  pub alias : String
  pub checksum : String
  pub chunk_id : ℕ
  pub text : String
  pub source_type : SourceType
  pub language : String

-- A source is a file, is missing, or is a directory with these files below it, in order.
pub data Place (F : Type 0) : Type 0 where
  one_file : F → Place F
  no_place : Place F
  directory : List F → Place F

-- `_iter_source_files`: the count is tested after a file was given.
abbrev pub source_files : {F : Type 0} → Place F → ℕ → List F
source_files (one_file f) max_files = f ∷ []
source_files no_place max_files = []
source_files (directory l) max_files = take (if eqb max_files 0 then 1 else max_files) l

-- The fields that all documents of a source share.
pub record Source : Type 0 where
  pub alias : String
  pub checksum : String
  pub source_type : SourceType

abbrev pub document_of : Source → ℕ → String → Document
document_of s n chunk = record {
  alias = s.alias;
  checksum = s.checksum;
  chunk_id = n;
  text = strip chunk;
  source_type = s.source_type;
  language = "en";
}

-- The inner loop: the documents of a file, and the next chunk id.
unfoldable pub number_chunks : Source → ℕ → List String → List Document × ℕ
number_chunks s n [] = ([], n)
number_chunks s n (chunk ∷ l) =
    let same = number_chunks s n l in
    let next = number_chunks s (n + 1) l in
    if nonempty (strip chunk) then (document_of s n chunk ∷ next.0, next.1) else same

-- What reading a file comes to: its text, a file that cannot be read and is left out, or an exception
-- that is not caught, such as the `EOFError` of a truncated archive.
pub data FileText : Type 0 where
  whole : String → FileText
  unreadable : FileText
  corrupt : Error → FileText

abbrev pub yielding : List Document → List Document × Option Error → List Document × Option Error
yielding docs (rest, o) = (docs ++ rest, o)

-- `_generate_documents`, by the texts of the files: the documents that it yields, and what it raises
-- behind them.
unfoldable pub generate_from : Source → ℕ → ℕ → List FileText → List Document × Option Error
unfolding number_chunks chunk_text
generate_from s max_tokens n [] = ([], none)
generate_from s max_tokens n (unreadable ∷ l) = generate_from s max_tokens n l
generate_from s max_tokens n (corrupt e ∷ l) = ([], some e)
generate_from s max_tokens n (whole t ∷ l) =
    let numbered = number_chunks s n (chunk_text t max_tokens) in
    yielding numbered.0 (generate_from s max_tokens numbered.1 l)

unfoldable pub generate_documents :
    {F : Type 0} → (F → FileText) → Source → Place F → ℕ → ℕ → List Document × Option Error
unfolding generate_from
generate_documents read s place max_tokens max_files =
    generate_from s max_tokens 0 (map read (source_files place max_files))
