-- ===== src/Metrics/Budget.antt =====
-- The percentile of a history, and the verdict on it.
use linux_rag_t.Prelude.{
  sym, ◌%◌, ap, ◌/◌, ◌∙◌, ◌-◌, ◌+◌, ◌<◌, ◌⊎◌, leb, length, map, ◌*◌, ◌≤◌, ℕ, refl, inl, inr, ok,
  zero, suc, [], arith, ◌∷◌, All, Bool-cases, List, Perm, String, get_or, length-map, le→leb, ◌≡◌,
}
use linux_rag_t.Metrics.{
  minimum, insert, describe, sorted, Summary, compute_p95, normalise_metrics_history, percentile_of,
  samples_of, summary_of, within_budget,
}
use native.Mathlib.Nat.{mul-zero}
use linux_rag_t.Prelude.Int.{pos}
use mathlib.Core.List.Perm

-- Each number is at most as large as those behind it.
abbrev pub Ascending : List ℕ → Type 0
Ascending [] = Unit
Ascending (n ∷ l) = All (λ m. n ≤ m) l × Ascending l

insert-perm : (n : ℕ) (l : List ℕ) → Perm (insert n l) (n ∷ l)
insert-perm n [] = Perm.rfl
insert-perm n (m ∷ l) = elim (Bool-cases (leb n m)) [
  | inl e ↦ rw e Perm.rfl
  | inr e ↦ rw e (Perm.trans (Perm.cons m (insert-perm n l)) (Perm.swap n m l))
]

sorted-perm : (l : List ℕ) → Perm (sorted l) l
unfolding sorted
sorted-perm [] = Perm.rfl
sorted-perm (n ∷ l) = Perm.trans (insert-perm n (sorted l)) (Perm.cons n (sorted-perm l))

insert-All : (P : ℕ → Type 0) (n : ℕ) (l : List ℕ) → P n → All P l → All P (insert n l)
insert-All P n [] p h = (p, tt)
insert-All P n (m ∷ l) p h = elim (Bool-cases (leb n m)) [
  | inl e ↦ rw e (p, h)
  | inr e ↦ rw e (h.0, insert-All P n l p h.1)
]

All-below : (n m : ℕ) (l : List ℕ) → n ≤ m → All (λ k. m ≤ k) l → All (λ k. n ≤ k) l
All-below n m [] h a = tt
All-below n m (k ∷ l) h a = (omega (arith, a.0), All-below n m l h a.1)

insert-Ascending : (n : ℕ) (l : List ℕ) → Ascending l → Ascending (insert n l)
insert-Ascending n [] h = (tt, tt)
insert-Ascending n (m ∷ l) h = elim (Bool-cases (leb n m)) [
  | inl e ↦ let below : n ≤ m = ground arith in rw e ((below, All-below n m l below h.0), h)
  | inr e ↦
      let above : m ≤ n = ground arith in
      rw e (insert-All (λ k. m ≤ k) n l above h.0, insert-Ascending n l h.1)
]

sorted-Ascending : (l : List ℕ) → Ascending (sorted l)
unfolding sorted
sorted-Ascending [] = tt
sorted-Ascending (n ∷ l) = insert-Ascending n (sorted l) (sorted-Ascending l)

length-insert : (n : ℕ) (l : List ℕ) → length (insert n l) ≡ 1 + length l
length-insert n [] = refl
length-insert n (m ∷ l) = ground (arith, length-insert n l)

length-sorted : (l : List ℕ) → length (sorted l) ≡ length l
unfolding sorted
length-sorted [] = refl
length-sorted (n ∷ l) = omega (arith, length-insert n (sorted l), length-sorted l)

samples_of-pos : (metric : String) (l : List ℕ) → samples_of metric (map pos l) ≡ ok l
samples_of-pos metric [] = refl
samples_of-pos metric (n ∷ l) = rw (samples_of-pos metric l) refl

-- The next sample counts only where there is one.
next_sample :
    (order : List ℕ) (n k f : ℕ)
    → 95 * n ≡ 100 * k + f
    → get_or order (minimum (k + 1) n) 0 * f ≡ get_or order (k + 1) 0 * f
next_sample order n k zero h = mul-zero _ ∙ sym (mul-zero _)
next_sample order n k (suc f) h =
    let inside : k + 1 ≤ n = omega arith in rw (le→leb (k + 1) n inside) refl

percentile_of-rank :
    (order : List ℕ) (n k f : ℕ)
    → length order ≡ n + 1
    → 95 * n ≡ 100 * k + f
    → f < 100
    → percentile_of order ≡ get_or order k 0 * (100 - f) + get_or order (k + 1) 0 * f
unfolding percentile_of
percentile_of-rank order n k f size h small =
    let last : length order - 1 ≡ n = omega arith in
    let lower : 95 * n / 100 ≡ k = omega arith in
    let fraction : 95 * n % 100 ≡ f = omega arith in
    rw (last, lower, fraction)
      (ap (λ x. get_or order k 0 * (100 - f) + x) (next_sample order n k f h))

-- Pass with no excess, or fail with what is above the budget.
abbrev pub IsJudged : ℕ → Summary → Type 0
IsJudged budget_ms s =
    ((s.p95 ≤ 100 * budget_ms) × (s.status ≡ "pass") × (s.over_budget ≡ 0))
    ⊎ ((100 * budget_ms < s.p95) × (s.status ≡ "fail") × (s.p95 ≡ 100 * budget_ms + s.over_budget))

summary_of-IsJudged :
    (p budget_ms count now : ℕ) → IsJudged budget_ms (summary_of p budget_ms count now)
summary_of-IsJudged p budget_ms count now = elim (Bool-cases (leb p (100 * budget_ms))) [
  | inl e ↦ let under : p ≤ 100 * budget_ms = ground arith in inl (under, rw e refl, omega arith)
  | inr e ↦ let over : 100 * budget_ms < p = ground arith in inr (over, rw e refl, omega arith)
]

-- The percentile of a history of samples is the 95th: in the samples in ascending order it stands at
-- 0.95 times the last index, between two samples in proportion. A history is within the budget
-- exactly where this is at most the budget; the description has the status for that, counts the
-- samples, and gives the excess over the budget, 0 where there is none.
pub within_budget_percentile :
    (metric : String) (budget_ms now n : ℕ) (l : List ℕ)
    → (s : Summary) × (order : List ℕ) × (describe metric (map pos (n ∷ l)) budget_ms now ≡ ok s)
      × Perm order (n ∷ l)
      × Ascending order
      × ((k f : ℕ)
          → 95 * length l ≡ 100 * k + f
          → f < 100
          → s.p95 ≡ get_or order k 0 * (100 - f) + get_or order (k + 1) 0 * f)
      × (within_budget metric (map pos (n ∷ l)) budget_ms ≡ ok (leb s.p95 (100 * budget_ms)))
      × (s.sample_count ≡ 1 + length l)
      × IsJudged budget_ms s
unfolding describe within_budget compute_p95 normalise_metrics_history
within_budget_percentile metric budget_ms now n l =
    let order = sorted (n ∷ l) in
    let p = percentile_of order in
    let count = length (map pos (n ∷ l)) in
    (
      summary_of p budget_ms count now,
      order,
      rw (samples_of-pos metric l) refl,
      sorted-perm (n ∷ l),
      sorted-Ascending (n ∷ l),
      λ k f. percentile_of-rank order (length l) k f (omega (arith, length-sorted (n ∷ l))),
      rw (samples_of-pos metric l) refl,
      omega (arith, length-map pos l),
      summary_of-IsJudged p budget_ms count now,
    )
