-- ===== src/Prelude/Parts.antt =====
-- Texts split at a character, and joined with it.
use linux_rag_t.Prelude.{
  All, refl, ap, inr, ◌∙◌, code, inl, Bool-cases, arith, eqb, false, if◌then◌else◌, ◌&&◌, ◌++◌,
  Bool, [], true, ◌∷◌, Char, List, ◌≡◌,
}
use text.Mathlib.TextEquality.{Char-path}

abbrev pub every : (Char → Bool) → List Char → Bool
every p [] = true
every p (ch ∷ l) = p ch && every p l

-- Puts a character in front of the first part.
abbrev pub push : Char → List (List Char) → List (List Char)
push ch [] = (ch ∷ []) ∷ []
push ch (part ∷ l) = (ch ∷ part) ∷ l

pub data NonEmpty : List (List Char) → Type 0 where
  filled : {part : List Char} {l : List (List Char)} → NonEmpty (part ∷ l)

push-NonEmpty : (ch : Char) (l : List (List Char)) → NonEmpty (push ch l)
push-NonEmpty ch [] = filled
push-NonEmpty ch (part ∷ l) = filled

module _ (sep : Char) where
  abbrev pub is_sep : Char → Bool
  is_sep ch = eqb (code ch) (code sep)

  unfoldable pub split_on : List Char → List (List Char)
  split_on [] = [] ∷ []
  split_on (ch ∷ l) = let rest = split_on l in if is_sep ch then [] ∷ rest else push ch rest

  sep_same : is_sep sep ≡ true
  sep_same = ground arith

  abbrev pub join_on : List (List Char) → List Char
  join_on [] = []
  join_on (part ∷ []) = part
  join_on (part ∷ next ∷ l) = part ++ sep ∷ join_on (next ∷ l)

  is_sep_same : (ch : Char) → is_sep ch ≡ true → ch ≡ sep
  is_sep_same ch h = Char-path ch sep (ground arith)

  join_on-push : (ch : Char) (l : List (List Char)) → join_on (push ch l) ≡ ch ∷ join_on l
  join_on-push ch [] = refl
  join_on-push ch (part ∷ []) = refl
  join_on-push ch (part ∷ next ∷ l) = refl

  pub split_on-NonEmpty : (l : List Char) → NonEmpty (split_on l)
  unfolding split_on
  split_on-NonEmpty [] = filled
  split_on-NonEmpty (ch ∷ l) = elim (Bool-cases (is_sep ch)) [
    | inl e ↦ rw e filled
    | inr e ↦ rw e (push-NonEmpty ch (split_on l))
  ]

  join_on-empty : (l : List (List Char)) → NonEmpty l → join_on ([] ∷ l) ≡ sep ∷ join_on l
  join_on-empty [] h = elim h [ ]
  join_on-empty (part ∷ l) h = refl

  pub join_on-split_on : (l : List Char) → join_on (split_on l) ≡ l
  unfolding split_on
  join_on-split_on [] = refl
  join_on-split_on (ch ∷ l) = elim (Bool-cases (is_sep ch)) [
    | inl e ↦ rw e (
        join_on-empty (split_on l) (split_on-NonEmpty l)
        ∙ rw (is_sep_same ch e) (ap (λ x. sep ∷ x) (join_on-split_on l)))
    | inr e ↦ rw e (join_on-push ch (split_on l) ∙ ap (λ x. ch ∷ x) (join_on-split_on l))
  ]

  module _ (p : Char → Bool) (plain : (ch : Char) → p ch ≡ true → is_sep ch ≡ false) where
    pub split_part : (part : List Char) → every p part ≡ true → split_on part ≡ part ∷ []
    unfolding split_on
    split_part [] h = refl
    split_part (ch ∷ part) h = rw (plain ch (ground arith), split_part part (ground arith)) refl

    pub split_first :
        (part l : List Char) → every p part ≡ true → split_on (part ++ sep ∷ l) ≡ part ∷ split_on l
    unfolding split_on
    split_first [] l h = rw sep_same refl
    split_first (ch ∷ part) l h =
        rw (plain ch (ground arith), split_first part l (ground arith)) refl

    pub split_on-join_on :
        (first : List Char) (rest : List (List Char))
        → every p first ≡ true
        → All (λ part. every p part ≡ true) rest
        → split_on (join_on (first ∷ rest)) ≡ first ∷ rest
    split_on-join_on first [] e h = split_part first e
    split_on-join_on first (next ∷ l) e h =
        split_first first (join_on (next ∷ l)) e
        ∙ ap (λ x. first ∷ x) (split_on-join_on next l h.0 h.1)
