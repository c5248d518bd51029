-- ===== src/Paths/Printed.antt =====
-- The parts of a path that was printed.
use linux_rag_t.Prelude.{
  ◌&&◌, ◌∙◌, Bool, is_nil, eqb, ap, ◌++◌, keep, ℕ, refl, inl, inr, true, false, [], arith, ◌∷◌, All,
  Bool-cases, Char, List, ◌≡◌,
}
use linux_rag_t.Paths.{dot, print, PurePath, parse, slash, is_name, root_for, is_plain}
use linux_rag_t.Prelude.Parts.{
  push, every, is_sep, join_on, split_first, split_on, split_on-join_on,
}

unfoldable pub IsPart : List Char → Type 0
IsPart part = (is_name part ≡ true) × (every is_plain part ≡ true)

plain_sep : (ch : Char) → is_plain ch ≡ true → is_sep slash ch ≡ false
plain_sep ch h = ground arith

push-plain :
    (ch : Char) (l : List (List Char))
    → is_plain ch ≡ true
    → All (λ part. every is_plain part ≡ true) l
    → All (λ part. every is_plain part ≡ true) (push ch l)
push-plain ch [] e h = (rw e refl, tt)
push-plain ch (part ∷ l) e h = (rw (e, h.0) refl, h.1)

split_on-plain : (l : List Char) → All (λ part. every is_plain part ≡ true) (split_on slash l)
unfolding split_on
split_on-plain [] = (refl, tt)
split_on-plain (ch ∷ l) = elim (Bool-cases (is_sep slash ch)) [
  | inl e ↦ rw e (refl, split_on-plain l)
  | inr e ↦ rw e (push-plain ch (split_on slash l) (rw e refl) (split_on-plain l))
]

keep-IsPart :
    (l : List (List Char))
    → All (λ part. every is_plain part ≡ true) l
    → All IsPart (keep is_name l)
unfolding IsPart
keep-IsPart [] h = tt
keep-IsPart (part ∷ l) h = elim (Bool-cases (is_name part)) [
  | inl e ↦ rw e ((e, h.0), keep-IsPart l h.1)
  | inr e ↦ rw e (keep-IsPart l h.1)
]

pub parse-IsPart : (l : List Char) → All IsPart (parse l).parts
unfolding parse
parse-IsPart l = keep-IsPart (split_on slash l) (split_on-plain l)

keep_names : (l : List (List Char)) → All IsPart l → keep is_name l ≡ l
unfolding IsPart
keep_names [] h = refl
keep_names (part ∷ l) h = rw h.0.0 (ap (λ x. part ∷ x) (keep_names l h.1))

plain_parts : (l : List (List Char)) → All IsPart l → All (λ part. every is_plain part ≡ true) l
unfolding IsPart
plain_parts [] h = tt
plain_parts (part ∷ l) h = (h.0.1, plain_parts l h.1)

joined : (l : List (List Char)) → All IsPart l → keep is_name (split_on slash (join_on slash l)) ≡ l
unfolding IsPart split_on
joined [] h = refl
joined (part ∷ l) h =
    rw (split_on-join_on slash is_plain plain_sep part l h.0.1 (plain_parts l h.1))
      (keep_names (part ∷ l) h)

behind_slash :
    (l : List Char) → keep is_name (split_on slash (slash ∷ l)) ≡ keep is_name (split_on slash l)
behind_slash l = ap (keep is_name) (split_first slash is_plain plain_sep [] l refl)

behind_root :
    (n : ℕ) (l : List Char)
    → keep is_name (split_on slash (root_for n ++ l)) ≡ keep is_name (split_on slash l)
behind_root n l = elim (Bool-cases (eqb n 0)) [
  | inl e ↦ rw e refl
  | inr e ↦ elim (Bool-cases (eqb n 2)) [
    | inl f ↦ rw (e, f) (behind_slash (slash ∷ l) ∙ behind_slash l)
    | inr f ↦ rw (e, f) (behind_slash l)
  ]
]

unfoldable pub path_at : ℕ → List (List Char) → PurePath
path_at n l = record { root = root_for n; parts = l }

alone : keep is_name (split_on slash (dot ∷ [])) ≡ []
unfolding split_on
alone = refl

pub parts-print :
    (n : ℕ) (l : List (List Char)) → All IsPart l → (parse (print (path_at n l))).parts ≡ l
unfolding parse print path_at
parts-print n (part ∷ l) h =
    rw (and_false (is_nil (root_for n)))
      (behind_root n (join_on slash (part ∷ l)) ∙ joined (part ∷ l) h)
  where
    and_false : (b : Bool) → (b && false) ≡ false
    and_false true = refl
    and_false false = refl
parts-print n [] h = elim (Bool-cases (is_nil (root_for n))) [
  | inl e ↦ rw e alone
  | inr e ↦ rw e (behind_root n [] ∙ joined [] tt)
]
