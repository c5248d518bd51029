-- ===== src/Prelude/Filtered.antt =====
-- Filters on lists of records whose keys are all different.
use Prim.Native.String.{String}
use mathlib.Core.Path.{◌≡◌, refl}
use mathlib.Core.Logic.{inl, inr}
use mathlib.Core.Bool.{Bool, true, false}
use mathlib.Core.Option.{none, some}
use mathlib.Core.List.{List, [], ◌∷◌}
use native.Mathlib.Omega.{arith}
use text.Mathlib.TextEquality.{eq_iff}
use linux_rag_t.Prelude.Tests.{Bool-cases}
use linux_rag_t.Prelude.Lists.{keep, All}
use linux_rag_t.Prelude.Text.{contains}
use linux_rag_t.Prelude.Keyed.{keys, find_key, Distinct, contains-keys}

module _ {ℓ} {A : Type ℓ} (key : A → String) (p : A → Bool) where
  contains-keep-keys :
      (l : List A) (s : String)
      → contains (keys key l) s ≡ false
      → contains (keys key (keep p l)) s ≡ false
  contains-keep-keys [] s h = refl
  contains-keep-keys (x ∷ l) s h = ground (arith, contains-keep-keys l s)

  pub Distinct-keep : (l : List A) → Distinct (keys key l) → Distinct (keys key (keep p l))
  Distinct-keep [] d = tt
  Distinct-keep (x ∷ l) d = elim (Bool-cases (p x)) [
    | inl e ↦ rw e (contains-keep-keys l (key x) d.0, Distinct-keep l d.1)
    | inr e ↦ rw e (Distinct-keep l d.1)
  ]

  -- A key stands in the filtered list exactly if its record passes.
  pub contains-find_key :
      (l : List A) (s : String)
      → Distinct (keys key l)
      → contains (keys key (keep p l)) s ≡ elim (find_key key s l) [ none ↦ false | some x ↦ p x ]
  contains-find_key [] s d = refl
  contains-find_key (x ∷ l) s d =
      ground (arith, contains-find_key l s d.1, d.0, eq_iff (key x) s, contains-keep-keys l (key x))

module _ {ℓ} {A : Type ℓ} (key : A → String) where
  -- Each record of a list with different keys is the one that its key finds.
  All-find_key-in :
      (l more : List A)
      → ((x : A) → find_key key (key x) l ≡ some x → find_key key (key x) more ≡ some x)
      → Distinct (keys key l)
      → All (λ x. find_key key (key x) more ≡ some x) l
  All-find_key-in [] more h d = tt
  All-find_key-in (x ∷ l) more h d = (
    h x (ground (arith, eq_iff (key x) (key x))),
    All-find_key-in l more
        (λ y f. h y (ground (arith, d.0, eq_iff (key x) (key y), contains-keys key (key x) l))) d.1,
  )

  pub All-find_key :
      (l : List A) → Distinct (keys key l) → All (λ x. find_key key (key x) l ≡ some x) l
  All-find_key l d = All-find_key-in l l (λ x e. e) d

pub All-keep {ℓ κ} :
    {A : Type ℓ} (P : A → Type κ) (p : A → Bool) (l : List A)
    → All (λ x. p x ≡ true → P x) l
    → All P (keep p l)
All-keep P p [] h = tt
All-keep P p (x ∷ l) h = elim (Bool-cases (p x)) [
  | inl e ↦ rw e (h.0 e, All-keep P p l h.1)
  | inr e ↦ rw e (All-keep P p l h.1)
]

pub All-both {ℓ κ} :
    {A : Type ℓ} {P Q R : A → Type κ} (l : List A)
    → ((x : A) → P x → Q x → R x)
    → All P l
    → All Q l
    → All R l
All-both [] f g h = tt
All-both (x ∷ l) f g h = (f x g.0 h.0, All-both l f g.1 h.1)
