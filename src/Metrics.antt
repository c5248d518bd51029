-- ===== src/Metrics.antt =====
-- backend/src/application/query_metrics.py and reindex_metrics.py, with
-- backend/src/common/helpers.py. A sample is a whole number of milliseconds. A percentile is a number
-- of hundredths of a millisecond, where the code has a float. How a float is printed is an argument.
pub mod Budget
use linux_rag_t.Prelude.{
  ◌%◌, ◌+◌, ◌/◌, ltb, ◌-◌, ◌==◌, if◌then◌else◌, leb, length, ◌*◌, ◌<>◌, ℕ, ok, err, [], ◌∷◌, Bool,
  List, Result, String, get_or, value_error, ◌≡◌, ◌>>=◌,
}
use linux_rag_t.Ports.Ingestion.{Percent, zero_percent}
use linux_rag_t.Prelude.Int.{ℤ, pos, negsuc}

abbrev pub insert : ℕ → List ℕ → List ℕ
insert n [] = n ∷ []
insert n (m ∷ l) = let rest = insert n l in if leb n m then n ∷ m ∷ l else m ∷ rest

unfoldable pub sorted : List ℕ → List ℕ
sorted [] = []
sorted (n ∷ l) = insert n (sorted l)

abbrev pub samples_of : String → List ℤ → Result (List ℕ)
samples_of metric [] = ok []
samples_of metric (pos n ∷ l) = do rest ← samples_of metric l; ok (n ∷ rest)
samples_of metric (negsuc n ∷ l) = err (value_error (metric <> " samples must be non-negative"))

unfoldable pub normalise_metrics_history : String → List ℤ → Result (List ℕ)
unfolding sorted
normalise_metrics_history metric [] = err (value_error (metric <> " history must not be empty"))
normalise_metrics_history metric (v ∷ l) = do
  samples ← samples_of metric (v ∷ l)
  ok (sorted samples)

abbrev pub minimum : ℕ → ℕ → ℕ
minimum a b = if leb a b then a else b

-- The value at the rank `0.95 * (len(samples) - 1)`, in hundredths.
unfoldable pub percentile_of : List ℕ → ℕ
percentile_of samples =
    let rank = 95 * (length samples - 1) in
    let lower_index = rank / 100 in
    let upper_index = minimum (lower_index + 1) (length samples - 1) in
    let fraction = rank % 100 in
    get_or samples lower_index 0 * (100 - fraction) + get_or samples upper_index 0 * fraction

unfoldable pub compute_p95 : String → List ℤ → Result ℕ
unfolding normalise_metrics_history percentile_of
compute_p95 metric history = do
  samples ← normalise_metrics_history metric history
  ok (percentile_of samples)

unfoldable pub within_budget : String → List ℤ → ℕ → Result Bool
unfolding compute_p95
within_budget metric history budget_ms = do
  percentile ← compute_p95 metric history
  ok (leb percentile (100 * budget_ms))

pub record Summary : Type 0 where
  pub status : String
  pub p95 : ℕ
  pub budget_ms : ℕ
  pub sample_count : ℕ
  pub over_budget : ℕ
  pub recorded_at : ℕ

abbrev pub status_of : ℕ → ℕ → String
status_of percentile budget_ms = if leb percentile (100 * budget_ms) then "pass" else "fail"

-- `max(0.0, a - b)` is the subtraction of ℕ.
abbrev pub summary_of : ℕ → ℕ → ℕ → ℕ → Summary
summary_of percentile budget_ms sample_count now = record {
  status = status_of percentile budget_ms;
  p95 = percentile;
  budget_ms = budget_ms;
  sample_count = sample_count;
  over_budget = percentile - 100 * budget_ms;
  recorded_at = now;
}

-- `describe` of query_metrics.py
unfoldable pub describe : String → List ℤ → ℕ → ℕ → Result Summary
unfolding compute_p95
describe metric history budget_ms now = do
  percentile ← compute_p95 metric history
  ok (summary_of percentile budget_ms (length history) now)

-- What `describe` of reindex_metrics.py adds. The utilisation is `100 * num / den`.
pub record ReindexSummary : Type 0 where
  pub summary : Summary
  pub percent_utilization : Percent
  pub recommendation : String

-- The milliseconds without decimals, and the minutes with two, of a number of hundredths.
unfoldable pub recommend : (ℕ → String) → (ℕ → String) → String → ℕ → String
recommend milliseconds minutes status over_budget =
    if status == "pass"
    then "Reindex duration meets the SC-002 10-minute budget."
    else "Reindex duration exceeds the SC-002 10-minute budget. "
      <> "Reduce ingest batch sizes or parallelism (over by "
      <> milliseconds over_budget
      <> " ms / "
      <> minutes over_budget
      <> " min)."

unfoldable pub describe_reindex :
    (ℕ → String) → (ℕ → String) → List ℤ → ℕ → ℕ → Result ReindexSummary
unfolding describe recommend
describe_reindex milliseconds minutes history budget_ms now = do
  s ← describe "reindex duration" history budget_ms now
  ok (record {
    summary = s;
    percent_utilization =
        if ltb 0 budget_ms then record { num = s.p95; den = 100 * budget_ms } else zero_percent;
    recommendation = recommend milliseconds minutes s.status s.over_budget;
  })
