-- ===== src/Tests/Metrics.antt =====
-- Percentiles and summaries of short histories.
use mathlib.Core.List.{Perm}
use linux_rag_t.Prelude.{
  leb, ◌-◌, ◌+◌, map, ℕ, Perm, get_or, ◌<◌, ◌*◌, ◌<>◌, refl, ok, err, [], ◌∷◌, List, value_error,
  ◌≡◌,
}
use linux_rag_t.Metrics.Budget.{Ascending, IsJudged, within_budget_percentile}
use linux_rag_t.Metrics.{describe, Summary, compute_p95, within_budget}
use linux_rag_t.Prelude.Int.{pos, negsuc}

latencies : compute_p95 "latency" (pos 120 ∷ pos 240 ∷ pos 180 ∷ []) ≡ ok 23400
unfolding compute_p95
latencies = refl

durations : compute_p95 "reindex duration" (pos 420000 ∷ pos 480000 ∷ pos 515000 ∷ []) ≡ ok 51150000
unfolding compute_p95
durations = refl

negative :
    compute_p95 "latency" (pos 3 ∷ negsuc 0 ∷ [])
    ≡ err (value_error ("latency" <> " samples must be non-negative"))
unfolding compute_p95
negative = refl

over_budget :
    describe "latency" (pos 9000 ∷ []) 8000 7
    ≡ ok (record {
      status = "fail";
      p95 = 900000;
      budget_ms = 8000;
      sample_count = 1;
      over_budget = 100000;
      recorded_at = 7;
    })
unfolding describe
over_budget = refl

within_budget_percentile_example :
    (s : Summary) × (order : List ℕ) × (describe "reindex duration"
        (map pos (515000 ∷ 420000 ∷ []))
        600000
        7
      ≡ ok s)
    × Perm order (515000 ∷ 420000 ∷ [])
    × Ascending order
    × ((k f : ℕ)
        → 95 ≡ 100 * k + f
        → f < 100
        → s.p95 ≡ get_or order k 0 * (100 - f) + get_or order (k + 1) 0 * f)
    × (within_budget "reindex duration" (map pos (515000 ∷ 420000 ∷ [])) 600000
        ≡ ok (leb s.p95 (100 * 600000)))
    × (s.sample_count ≡ 2)
    × IsJudged 600000 s
within_budget_percentile_example =
    within_budget_percentile "reindex duration" 600000 7 515000 (420000 ∷ [])
