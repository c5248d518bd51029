-- ===== src/Prelude/Split.antt =====
-- A list split by a test: the kept part, the rest, and how they make up the list.
use linux_rag_t.Prelude.{ap, is_nil, ◌+◌, false}
use Prim.Native.String.{String}
use Prim.Native.Nat.{◌≤◌}
use mathlib.Core.Path.{◌≡◌, refl}
use mathlib.Core.Logic.{inl, inr, ◌↔◌}
use mathlib.Core.Bool.{Bool, true, ◌&&◌, not}
use mathlib.Core.List.{List, [], ◌∷◌, ◌++◌, Perm, perm_middle}
use native.Mathlib.Omega.{arith}
use text.Mathlib.TextEquality.{eq_iff}
use linux_rag_t.Prelude.Tests.{Bool-cases}
use linux_rag_t.Prelude.Lists.{keep, length, All}
use linux_rag_t.Prelude.Text.{◌==◌, contains}
use mathlib.Core.List.Perm

module _ {ℓ} {A : Type ℓ} where
  pub length-keep : (p : A → Bool) (l : List A) → length (keep p l) ≤ length l
  length-keep p [] = omega arith
  length-keep p (x ∷ l) = ground (arith, length-keep p l)

  -- Where nothing is dropped by number, nothing is dropped.
  pub keep_full : (p : A → Bool) (l : List A) → length (keep p l) ≡ length l → keep p l ≡ l
  keep_full p [] h = refl
  keep_full p (x ∷ l) h = ground (arith, keep_full p l, length-keep p l)

  pub keep_none : (p : A → Bool) (l : List A) → ((x : A) → p x ≡ false) → keep p l ≡ []
  keep_none p [] h = refl
  keep_none p (x ∷ l) h = ground (arith, keep_none p l h, h x)

  pub length-keep_split :
      (p : A → Bool) (l : List A) → length (keep p l) + length (keep (λ x. not (p x)) l) ≡ length l
  length-keep_split p [] = omega arith
  length-keep_split p (x ∷ l) = ground (arith, length-keep_split p l)

  length-nil : (l : List A) → (is_nil l ≡ true) ↔ (length l ≡ 0)
  length-nil [] = (λ e. refl, λ e. refl)
  length-nil (x ∷ l) = (λ e. absurd (ground arith), λ e. absurd (omega arith))

  -- The test keeps everything exactly where its opposite keeps nothing.
  pub keep_all_iff :
      (p : A → Bool) (l : List A) → (is_nil (keep (λ x. not (p x)) l) ≡ true) ↔ (keep p l ≡ l)
  keep_all_iff p l = (
    λ e.
        keep_full p l
          (omega (arith, length-keep_split p l, (length-nil (keep (λ x. not (p x)) l)).0 e)),
    λ e.
        (length-nil (keep (λ x. not (p x)) l)).1
          (omega (arith, length-keep_split p l, ap length e)),
  )

  pub keep_ext : (p q : A → Bool) (l : List A) → All (λ x. p x ≡ q x) l → keep p l ≡ keep q l
  keep_ext p q [] h = refl
  keep_ext p q (x ∷ l) h = ground (arith, keep_ext p q l h.1, h.0)

  -- The two parts of a list are the list, in another order.
  pub keep-perm : (p : A → Bool) (l : List A) → Perm (keep p l ++ keep (λ x. not (p x)) l) l
  keep-perm p [] = Perm.rfl
  keep-perm p (x ∷ l) = elim (Bool-cases (p x)) [
    | inl e ↦ rw e (Perm.cons x (keep-perm p l))
    | inr e ↦ rw e (
        Perm.trans (perm_middle (keep p l) (keep (λ y. not (p y)) l)) (Perm.cons x (keep-perm p l)))
  ]

pub contains-keep :
    (p : String → Bool) (l : List String) (s : String)
    → contains (keep p l) s ≡ (contains l s && p s)
contains-keep p [] s = refl
contains-keep p (x ∷ l) s = elim (Bool-cases (x == s)) [
  | inl e ↦ let same : p x ≡ p s = rw ((eq_iff x s).0 e) in ground (arith, contains-keep p l s)
  | inr e ↦ ground (arith, contains-keep p l s)
]

All-contains_in :
    (l more : List String)
    → ((s : String) → contains l s ≡ true → contains more s ≡ true)
    → All (λ s. contains more s ≡ true) l
All-contains_in [] more h = tt
All-contains_in (x ∷ l) more h =
    (h x (ground (arith, eq_iff x x)), All-contains_in l more (λ s e. h s (ground arith)))

pub All-contains : (l : List String) → All (λ s. contains l s ≡ true) l
All-contains l = All-contains_in l l (λ s e. e)

All-kept :
    (p : String → Bool) (l more : List String)
    → All (λ s. contains more s ≡ true) l
    → All (λ s. not (contains (keep p more) s) ≡ not (p s)) l
All-kept p [] more h = tt
All-kept p (x ∷ l) more h = (rw contains-keep (ground (arith, h.0)), All-kept p l more h.1)

-- What is in the list and not in its kept part is what the test refuses.
pub keep-not-contains :
    (p : String → Bool) (l : List String)
    → keep (λ s. not (contains (keep p l) s)) l ≡ keep (λ s. not (p s)) l
keep-not-contains p l = keep_ext _ _ l (All-kept p l l (All-contains l))
