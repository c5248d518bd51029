-- ===== src/Prelude/Search.antt =====
-- The first number from a start whose text is not in a list. The texts of different numbers are
-- different, so one more try than the list is long is enough.
use Prim.Native.Nat.{ℕ, zero, suc, ◌+◌, ◌≤◌, ◌<◌}
use Prim.Native.String.{String}
use mathlib.Core.Path.{◌≡◌, sym}
use mathlib.Core.Logic.{◌≢◌, inl, inr}
use mathlib.Core.Bool.{true, false}
use mathlib.Core.Option.{Option, none, some, some-injective}
use mathlib.Core.List.{List, [], ◌∷◌}
use native.Mathlib.Omega.{arith}
use native.Mathlib.Decide.{ℕ_discrete}
use text.Mathlib.TextEquality.{eq_iff}
use linux_rag_t.Prelude.Tests.{if◌then◌else◌, Bool-cases, Option-cases}
use linux_rag_t.Prelude.Lists.{length}
use linux_rag_t.Prelude.Text.{◌==◌, contains}

-- `for suffix in itertools.count(start=n): …`, on fuel.
unfoldable pub first_free : (ℕ → String) → ℕ → ℕ → List String → Option String
first_free g zero n xs = none
first_free g (suc f) n xs =
    let rest = first_free g f (suc n) xs in if contains xs (g n) then rest else some (g n)

remove : String → List String → List String
remove s [] = []
remove s (x ∷ xs) = let rest = remove s xs in if x == s then xs else x ∷ rest

length-remove :
    (s : String) (xs : List String) → contains xs s ≡ true → length xs ≡ suc (length (remove s xs))
unfolding remove
length-remove s [] h = absurd (ground arith)
length-remove s (x ∷ xs) h = ground (arith, length-remove s xs)

contains-remove :
    (s t : String) (xs : List String)
    → s ≢ t
    → contains xs t ≡ true
    → contains (remove s xs) t ≡ true
unfolding remove
contains-remove s t [] d h = h
contains-remove s t (x ∷ xs) d h = ground (arith, contains-remove s t xs d, eq_iff x s, eq_iff x t)

module _ (g : ℕ → String) (distinct : (m n : ℕ) → g m ≡ g n → m ≡ n) where
  all_taken :
      (f n : ℕ) (xs : List String)
      → ((k : ℕ) → n ≤ k → k < n + f → contains xs (g k) ≡ true)
      → f ≤ length xs
  all_taken zero n xs h = omega arith
  all_taken (suc f) n xs h =
      let taken = h n (omega arith) (omega arith) in
      let fewer = all_taken f (suc n) (remove (g n) xs) λ k low high.
        contains-remove (g n) (g k) xs (λ e. absurd (omega (arith, distinct n k e)))
          (h k (omega arith) (omega arith)) in
      omega (arith, length-remove (g n) xs taken)

  first_taken :
      (f n : ℕ) (xs : List String)
      → first_free g (suc f) n xs ≡ none
      → (contains xs (g n) ≡ true) × (first_free g f (suc n) xs ≡ none)
  unfolding first_free
  first_taken f n xs e = ground arith

  none_taken :
      (f n : ℕ) (xs : List String)
      → first_free g f n xs ≡ none
      → (k : ℕ) → n ≤ k
      → k < n + f
      → contains xs (g k) ≡ true
  none_taken zero n xs e k low high = absurd (omega arith)
  none_taken (suc f) n xs e k low high = elim (ℕ_discrete n k) [
    | yes p ↦ rw p at ((first_taken f n xs e).0)
    | no p ↦ none_taken f (suc n) xs (first_taken f n xs e).1 k (omega arith) (omega arith)
  ]

  -- A result is not in the list, and is the text of some number among the tries.
  pub first_free_sound :
      (f n : ℕ) (xs : List String) (s : String)
      → first_free g f n xs ≡ some s
      → (contains xs s ≡ false) × (k : ℕ) × (n ≤ k) × (k < n + f) × (s ≡ g k)
  unfolding first_free
  first_free_sound zero n xs s e = absurd (ground arith)
  first_free_sound (suc f) n xs s e = elim (Bool-cases (contains xs (g n))) [
    | inl taken ↦
        let (free, k, low, high, same) = first_free_sound f (suc n) xs s (rw taken at e) in
        (free, k, omega arith, omega arith, same)
    | inr free ↦
        let found : g n ≡ s = some-injective _ _ (rw free at e) in
        (rw found at free, n, omega arith, omega arith, sym found)
  ]

  -- With more fuel than the list is long the search finds a text.
  pub first_free_total :
      (f n : ℕ) (xs : List String) → length xs < f → (s : String) × (first_free g f n xs ≡ some s)
  first_free_total f n xs h = elim (Option-cases (first_free g f n xs)) [
    | inl e ↦ absurd (omega (arith, all_taken f n xs (none_taken f n xs e)))
    | inr found ↦ found
  ]
