-- ===== src/Storage/Audit/Code.antt =====
-- What a language code is: parts with dashes between them.
use linux_rag_t.Prelude.Parts.{split_on-join_on, split_on, every, join_on, join_on-split_on}
use linux_rag_t.Prelude.{sym, ◌↔◌, refl, true, false, [], arith, ◌∷◌, All, Char, List, ◌≡◌}
use linux_rag_t.Storage.Audit.{
  are_parts, is_language_code, match_parts, is_alphanumeric, is_letter, is_part,
}
use linux_rag_t.Catalog.Alias.{dash, is_dash}

-- The characters are two to eight letters, then any number of groups of a dash and two to eight
-- letters or digits.
pub IsLanguageCode : List Char → Type 0
IsLanguageCode l =
    (first : List Char) × (rest : List (List Char)) × (is_part is_letter first ≡ true)
    × All (λ part. is_part is_alphanumeric part ≡ true) rest
    × (l ≡ join_on dash (first ∷ rest))

letter_plain : (ch : Char) → is_letter ch ≡ true → is_dash ch ≡ false
letter_plain ch h = ground arith

alphanumeric_plain : (ch : Char) → is_alphanumeric ch ≡ true → is_dash ch ≡ false
alphanumeric_plain ch h = ground arith

are_parts-All :
    (l : List (List Char))
    → (are_parts l ≡ true) ↔ All (λ part. is_part is_alphanumeric part ≡ true) l
are_parts-All [] = (λ e. tt, λ h. refl)
are_parts-All (part ∷ l) = (
  λ e. (ground arith, (are_parts-All l).0 (ground arith)),
  λ h. rw (h.0, (are_parts-All l).1 h.1) refl,
)

parts_plain :
    (l : List (List Char))
    → All (λ part. is_part is_alphanumeric part ≡ true) l
    → All (λ part. every is_alphanumeric part ≡ true) l
parts_plain [] h = tt
parts_plain (part ∷ l) h = (ground (arith, h.0), parts_plain l h.1)

letters_alphanumeric : (l : List Char) → every is_letter l ≡ true → every is_alphanumeric l ≡ true
letters_alphanumeric [] e = refl
letters_alphanumeric (ch ∷ l) e = ground (arith, letters_alphanumeric l (ground arith))

code_of :
    (l : List Char) (parts : List (List Char))
    → l ≡ join_on dash parts
    → match_parts parts ≡ true
    → IsLanguageCode l
unfolding IsLanguageCode
code_of l [] same e = absurd (ground arith)
code_of l (first ∷ rest) same e =
    (first, rest, ground arith, (are_parts-All rest).0 (ground arith), same)

-- The test holds exactly where the characters are a language code.
pub is_language_code_iff : (l : List Char) → (is_language_code l ≡ true) ↔ IsLanguageCode l
unfolding is_language_code IsLanguageCode
is_language_code_iff l = (
  λ e. code_of l (split_on dash l) (sym (join_on-split_on dash l)) e,
  λ (first, rest, e, h, same).
      rw
        (
          same,
          split_on-join_on dash is_alphanumeric alphanumeric_plain first rest
              (letters_alphanumeric first (ground arith)) (parts_plain rest h),
        )
        (rw (e, (are_parts-All rest).1 h) refl),
)
