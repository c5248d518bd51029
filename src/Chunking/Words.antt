-- ===== src/Chunking/Words.antt =====
-- The chunks of a text hold its words.
use linux_rag_t.Prelude.{
  chars, ◌-◌, ◌∙◌, ap, ◌≤◌, leb, length, map, ◌<◌, ℕ, ◌++◌, refl, inl, inr, suc, [], arith, ◌∷◌,
  All, Bool-cases, List, String, length-append, of_chars, ◌≡◌,
}
use linux_rag_t.Chunking.{join_words, chunk_text, chunk_words, split_words}
use mathlib.Core.List.{append_assoc}

abbrev pub concat : {A : Type 0} → List (List A) → List A
concat [] = []
concat (x ∷ l) = x ++ concat l

concat-chunk_words : (m : ℕ) (chunk l : List String) → concat (chunk_words m chunk l) ≡ chunk ++ l
unfolding chunk_words
concat-chunk_words m [] [] = refl
concat-chunk_words m (c ∷ chunk) [] = refl
concat-chunk_words m chunk (w ∷ l) = elim (Bool-cases (leb m (length (chunk ++ w ∷ [])))) [
  | inl e ↦
      rw e (
        ap (λ k. (chunk ++ w ∷ []) ++ k) (concat-chunk_words m [] l)
        ∙ append_assoc chunk (w ∷ []) l)
  | inr e ↦ rw e (concat-chunk_words m (chunk ++ w ∷ []) l ∙ append_assoc chunk (w ∷ []) l)
]

-- A chunk has at least one word and, if the limit is positive, at most that many.
abbrev pub Fits : ℕ → List String → Type 0
Fits m chunk = (0 < length chunk) × (length chunk ≤ suc (m - 1))

chunk_words-Fits :
    (m : ℕ) (chunk l : List String) → length chunk ≤ m - 1 → All (Fits m) (chunk_words m chunk l)
unfolding chunk_words
chunk_words-Fits m [] [] h = tt
chunk_words-Fits m (c ∷ chunk) [] h = ((omega arith, omega arith), tt)
chunk_words-Fits m chunk (w ∷ l) h = elim (Bool-cases (leb m (length (chunk ++ w ∷ [])))) [
  | inl e ↦ rw e (
    (omega (arith, length-append chunk (w ∷ [])), omega (arith, length-append chunk (w ∷ []))),
    chunk_words-Fits m [] l (omega arith),
  )
  | inr e ↦
      rw e (chunk_words-Fits m (chunk ++ w ∷ []) l (ground (arith, length-append chunk (w ∷ []))))
]

-- `_chunk_text` joins groups of words: together and in order they are the words of the text, each
-- group has at least one word, and none has more than a positive limit (one word for a limit of 0).
pub chunk_text-words :
    (s : String) (m : ℕ)
    → (groups : List (List String)) × (chunk_text s m ≡ map join_words groups)
      × (concat groups ≡ map of_chars (split_words (chars s)))
      × All (Fits m) groups
unfolding chunk_text
chunk_text-words s m =
    let words = map of_chars (split_words (chars s)) in
    (
      chunk_words m [] words,
      refl,
      concat-chunk_words m [] words,
      chunk_words-Fits m [] words (omega arith),
    )
