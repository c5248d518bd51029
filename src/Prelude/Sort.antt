-- ===== src/Prelude/Sort.antt =====
-- `sorted(items, key=…)` for a text key: Python's order of texts by code points, and a stable sort.
use Prim.Native.Char.{Char, code}
use Prim.Native.String.{String}
use mathlib.Core.Path.{◌≡◌, refl}
use mathlib.Core.Bool.{Bool, true, false}
use mathlib.Core.List.{List, [], ◌∷◌, Perm}
use mathlib.Core.List.Perm
use native.Mathlib.Omega.{arith}
use linux_rag_t.Prelude.Tests.{ltb, eqb, if◌then◌else◌, Bool-cases}
use linux_rag_t.Prelude.Lists.{All}
use linux_rag_t.Prelude.Text.{chars}
use mathlib.Core.Logic.{inl, inr}

chars_leb : List Char → List Char → Bool
chars_leb [] t = true
chars_leb (c ∷ s) [] = false
chars_leb (c ∷ s) (d ∷ t) =
    let rest = chars_leb s t in
    if ltb (code c) (code d) then true else if eqb (code c) (code d) then rest else false

chars_leb_total : (s t : List Char) → chars_leb s t ≡ false → chars_leb t s ≡ true
unfolding chars_leb
chars_leb_total [] t h = ground arith
chars_leb_total (c ∷ s) [] h = refl
chars_leb_total (c ∷ s) (d ∷ t) h = ground (arith, chars_leb_total s t)

chars_leb_trans :
    (s t u : List Char) → chars_leb s t ≡ true → chars_leb t u ≡ true → chars_leb s u ≡ true
unfolding chars_leb
chars_leb_trans [] t u h k = refl
chars_leb_trans (c ∷ s) [] u h k = ground arith
chars_leb_trans (c ∷ s) (d ∷ t) [] h k = ground arith
chars_leb_trans (c ∷ s) (d ∷ t) (e ∷ u) h k = ground (arith, chars_leb_trans s t u)

chars_leb_refl : (s : List Char) → chars_leb s s ≡ true
unfolding chars_leb
chars_leb_refl [] = refl
chars_leb_refl (c ∷ s) = ground (arith, chars_leb_refl s)

unfoldable pub str_leb : String → String → Bool
unfolding chars_leb
str_leb s t = chars_leb (chars s) (chars t)

pub str_leb_of_eq : (s t : String) → s ≡ t → str_leb s t ≡ true
unfolding str_leb
str_leb_of_eq s t e = rw e (chars_leb_refl (chars t))

pub str_leb_total : (s t : String) → str_leb s t ≡ false → str_leb t s ≡ true
unfolding str_leb
str_leb_total s t = chars_leb_total (chars s) (chars t)

pub str_leb_trans : (s t u : String) → str_leb s t ≡ true → str_leb t u ≡ true → str_leb s u ≡ true
unfolding str_leb
str_leb_trans s t u = chars_leb_trans (chars s) (chars t) (chars u)

module _ {ℓ} {A : Type ℓ} (key : A → String) where
  unfoldable pub insert_by : A → List A → List A
  insert_by x [] = x ∷ []
  insert_by x (y ∷ l) =
      let rest = insert_by x l in if str_leb (key x) (key y) then x ∷ y ∷ l else y ∷ rest

  unfoldable pub sort_by : List A → List A
  unfolding insert_by
  sort_by [] = []
  sort_by (x ∷ l) = insert_by x (sort_by l)

  -- Ascending by the key, each element against all that follow it.
  abbrev pub IsSorted : List A → Type 0
  IsSorted [] = Unit
  IsSorted (x ∷ l) = All (λ y. str_leb (key x) (key y) ≡ true) l × IsSorted l

  insert_by-perm : (x : A) (l : List A) → Perm (insert_by x l) (x ∷ l)
  unfolding insert_by
  insert_by-perm x [] = Perm.rfl
  insert_by-perm x (y ∷ l) = elim (Bool-cases (str_leb (key x) (key y))) [
    | inl h ↦ rw h Perm.rfl
    | inr h ↦ rw h (Perm.trans (Perm.cons y (insert_by-perm x l)) (Perm.swap x y l))
  ]

  pub sort_by-perm : (l : List A) → Perm (sort_by l) l
  unfolding sort_by
  sort_by-perm [] = Perm.rfl
  sort_by-perm (x ∷ l) = Perm.trans (insert_by-perm x (sort_by l)) (Perm.cons x (sort_by-perm l))

  module _ {κ} (P : A → Type κ) where
    pub All-insert_by : (x : A) (l : List A) → P x → All P l → All P (insert_by x l)
    unfolding insert_by
    All-insert_by x [] p h = (p, tt)
    All-insert_by x (y ∷ l) p h = elim (Bool-cases (str_leb (key x) (key y))) [
      | inl e ↦ rw e (p, h)
      | inr e ↦ rw e (h.0, All-insert_by x l p h.1)
    ]

    pub All-sort_by : (l : List A) → All P l → All P (sort_by l)
    unfolding sort_by
    All-sort_by [] h = h
    All-sort_by (x ∷ l) h = All-insert_by x (sort_by l) h.0 (All-sort_by l h.1)

  All-le_trans :
      (x y : A) (l : List A)
      → str_leb (key x) (key y) ≡ true
      → All (λ z. str_leb (key y) (key z) ≡ true) l
      → All (λ z. str_leb (key x) (key z) ≡ true) l
  All-le_trans x y [] h k = tt
  All-le_trans x y (z ∷ l) h k =
      (str_leb_trans (key x) (key y) (key z) h k.0, All-le_trans x y l h k.1)

  insert_by-IsSorted : (x : A) (l : List A) → IsSorted l → IsSorted (insert_by x l)
  unfolding insert_by
  insert_by-IsSorted x [] s = (tt, tt)
  insert_by-IsSorted x (y ∷ l) s = elim (Bool-cases (str_leb (key x) (key y))) [
    | inl h ↦ rw h ((h, All-le_trans x y l h s.0), s)
    | inr h ↦ rw h (
      All-insert_by (λ z. str_leb (key y) (key z) ≡ true) x l (str_leb_total (key x) (key y) h) s.0,
      insert_by-IsSorted x l s.1,
    )
  ]

  pub sort_by-IsSorted : (l : List A) → IsSorted (sort_by l)
  unfolding sort_by
  sort_by-IsSorted [] = tt
  sort_by-IsSorted (x ∷ l) = insert_by-IsSorted x (sort_by l) (sort_by-IsSorted l)
