-- ===== src/Paths/Cut.antt =====
-- A name cut at its last dot.
use linux_rag_t.Prelude.{
  ◌++◌, ap, not, ◌||◌, ◌⊎◌, refl, none, some, inl, inr, true, false, [], arith, ◌∷◌, Bool,
  Bool-cases, Char, List, is_nil, ◌≡◌,
}
use linux_rag_t.Paths.{dot, cut_dot, split_name, is_dot}
use linux_rag_t.Prelude.Parts.{every}
use text.Mathlib.TextEquality.{Char-path}

abbrev pub no_dot : Char → Bool
no_dot ch = not (is_dot ch)

is_dot_same : (ch : Char) → is_dot ch ≡ true → ch ≡ dot
is_dot_same ch h = Char-path ch dot (ground arith)

pub cut_dot_plain : (l : List Char) → every no_dot l ≡ true → cut_dot l ≡ none
unfolding cut_dot
cut_dot_plain [] h = refl
cut_dot_plain (ch ∷ l) h =
    let here : is_dot ch ≡ false = ground arith in rw (cut_dot_plain l (ground arith), here) refl

pub cut_dot_at : (a b : List Char) → every no_dot b ≡ true → cut_dot (a ++ dot ∷ b) ≡ some (a, b)
unfolding cut_dot
cut_dot_at [] b h = rw (cut_dot_plain b h) refl
cut_dot_at (ch ∷ a) b h = rw (cut_dot_at a b h) refl

-- The text has no dot, or is cut at its last dot.
unfoldable pub IsCut : List Char → Type 0
IsCut l =
    ((cut_dot l ≡ none) × (every no_dot l ≡ true))
    ⊎ ((a b : List Char) × (cut_dot l ≡ some (a, b)) × (every no_dot b ≡ true) × (l ≡ a ++ dot ∷ b))

pub cuts : (l : List Char) → IsCut l
unfolding IsCut cut_dot
cuts [] = inl (refl, refl)
cuts (ch ∷ l) = elim (cuts l) [
  | inl (e, p) ↦ elim (Bool-cases (is_dot ch)) [
    | inl d ↦ inr ([], l, rw (e, d) refl, p, rw (is_dot_same ch d) refl)
    | inr d ↦ inl (rw (e, d) refl, rw (d, p) refl)
  ]
  | inr (a, b, e, p, same) ↦ inr (ch ∷ a, b, rw e refl, p, ap (λ x. ch ∷ x) same)
]

-- The text is the stem as a whole, or a stem and a suffix that are not empty.
unfoldable pub IsSplit : List Char → Type 0
IsSplit l =
    (split_name l ≡ (l, []))
    ⊎ ((a b : List Char) × (split_name l ≡ (a, dot ∷ b))
        × (is_nil a ≡ false)
        × (every no_dot b ≡ true)
        × (is_nil b ≡ false)
        × (l ≡ a ++ dot ∷ b))

pub splits : (l : List Char) → IsSplit l
unfolding IsSplit IsCut
splits l = elim (cuts l) [
  | inl (e, _) ↦ inl (rw e refl)
  | inr (a, b, e, p, same) ↦ elim (Bool-cases (is_nil a || is_nil b)) [
    | inl f ↦ inl (rw (e, f) refl)
    | inr f ↦ inr (a, b, rw (e, f) refl, ground arith, p, ground arith, same)
  ]
]

pub split_name_at :
    (a b : List Char)
    → is_nil a ≡ false
    → is_nil b ≡ false
    → every no_dot b ≡ true
    → split_name (a ++ dot ∷ b) ≡ (a, dot ∷ b)
split_name_at a b f g p = rw (cut_dot_at a b p, f, g) refl
