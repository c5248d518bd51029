-- ===== src/Chunking/Ids.antt =====
-- The chunk ids of a source.
use linux_rag_t.Chunking.{
  unreadable, whole, corrupt, FileText, chunk_text, Document, Place, Source, generate_documents,
  generate_from, number_chunks, source_files,
}
use linux_rag_t.Prelude.{
  sym, ◌∙◌, length-append, ap, length, strip, ◌++◌, map, nonempty, ◌+◌, ℕ, refl, inl, inr, zero,
  suc, [], arith, ◌∷◌, Bool-cases, List, String, ◌≡◌,
}
use mathlib.Core.List.{map-append}

abbrev pub count_from : ℕ → ℕ → List ℕ
count_from n zero = []
count_from n (suc k) = n ∷ count_from (n + 1) k

abbrev pub id_of : Document → ℕ
id_of d = d.chunk_id

count_from-append : (n a b : ℕ) → count_from n (a + b) ≡ count_from n a ++ count_from (n + a) b
count_from-append n zero b =
    let e : 0 + b ≡ b = omega arith in let f : n + 0 ≡ n = omega arith in rw (e, f) refl
count_from-append n (suc a) b =
    let e : suc a + b ≡ suc (a + b) = omega arith in
    let f : n + suc a ≡ n + 1 + a = omega arith in
    rw (e, f) (ap (λ k. n ∷ k) (count_from-append (n + 1) a b))

-- Numbered from `n`, with the rest of the run starting at the next number.
abbrev Numbered : ℕ → List Document × ℕ → Type 0
Numbered n (l, next) = (map id_of l ≡ count_from n (length l)) × (next ≡ n + length l)

number_chunks-Numbered : (s : Source) (n : ℕ) (l : List String) → Numbered n (number_chunks s n l)
unfolding number_chunks
number_chunks-Numbered s n [] = (refl, omega arith)
number_chunks-Numbered s n (chunk ∷ l) = elim (Bool-cases (nonempty (strip chunk))) [
  | inr e ↦ rw e (number_chunks-Numbered s n l)
  | inl e ↦ rw e (
    ap (λ k. n ∷ k) (number_chunks-Numbered s (n + 1) l).0,
    omega (arith, (number_chunks-Numbered s (n + 1) l).1),
  )
]

generate_from-ids :
    (s : Source) (m n : ℕ) (l : List FileText)
    → map id_of (generate_from s m n l).0 ≡ count_from n (length (generate_from s m n l).0)
unfolding generate_from
generate_from-ids s m n [] = refl
generate_from-ids s m n (unreadable ∷ l) = generate_from-ids s m n l
generate_from-ids s m n (corrupt e ∷ l) = refl
generate_from-ids s m n (whole t ∷ l) =
    let docs = (number_chunks s n (chunk_text t m)).0 in
    let next = (number_chunks s n (chunk_text t m)).1 in
    let numbered = number_chunks-Numbered s n (chunk_text t m) in
    let rest = (generate_from s m next l).0 in
    map-append id_of docs rest
    ∙ ap (λ k. k ++ map id_of rest) numbered.0
    ∙ ap (λ k. count_from n (length docs) ++ k)
        (generate_from-ids s m next l ∙ ap (λ k. count_from k (length rest)) numbered.1)
    ∙ sym (count_from-append n (length docs) (length rest))
    ∙ ap (count_from n) (sym (length-append docs rest))

-- The documents of a source are numbered 0, 1, 2, … over all its files, so that no chunk id stands
-- twice, whatever files cannot be read, and also where a file that is corrupt stops them.
pub generate_documents-ids :
    {F : Type 0} (read : F → FileText) (s : Source) (place : Place F) (m max_files : ℕ)
    → map id_of (generate_documents read s place m max_files).0
      ≡ count_from 0 (length (generate_documents read s place m max_files).0)
unfolding generate_documents
generate_documents-ids read s place m max_files =
    generate_from-ids s m 0 (map read (source_files place max_files))
