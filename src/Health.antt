-- ===== src/Health.antt =====
-- `HealthDiagnostics` of backend/src/application/health_service.py, and the aggregation that
-- `HealthService` of backend/src/domain/health_service.py shares with it. A ratio of disk space is an
-- exact fraction, where the code has a float; the thresholds are not negative.
pub mod Aggregate
pub mod Verdict
use linux_rag_t.Ports.Health.{pass, warn, fail, disk_capacity, index_freshness, source_access}
use linux_rag_t.Prelude.Int.{pos, negsuc}
use linux_rag_t.Ports.Ingestion.{active, pending_validation, quarantined, error}
use linux_rag_t.Ports.Health.{
  percentage, pass, warn, count, HealthCheck, HealthReport, HealthStatus, disk_capacity,
  index_freshness, source_access,
}
use linux_rag_t.Prelude.{
  ◌||◌, any, eqb, keep, length, not, ◌*◌, ◌-◌, if◌then◌else◌, leb, map, ℕ, ◌++◌, ◌/◌, ◌<>◌, none,
  some, ok, err, true, false, [], ◌∷◌, Bool, List, Option, Result, String, is_nil, other_error,
  value_error, ◌≡◌, ◌>>=◌,
}
use linux_rag_t.Prelude.Int.{ℤ}
use linux_rag_t.Prelude.Decimal.{str_nat}
use linux_rag_t.Prelude.Sort.{sort_by}
use linux_rag_t.Catalog.Service.{alias_of}
use linux_rag_t.Ports.Ingestion.{
  Percent, SourceCatalog, SourceStatus, full_percent, pending_validation,
}

-- `DiskSnapshot`
pub record DiskSnapshot : Type 0 where
  pub total_bytes : ℕ
  pub available_bytes : ℕ

-- What the disk probe returns: nothing, a snapshot, an object with both fields, or one in which the
-- named field is missing.
pub data Payload : Type 0 where
  nothing : Payload
  snapshot : DiskSnapshot → Payload
  fields : ℤ → ℤ → Payload
  missing : String → Payload

abbrev pub is_fail : HealthStatus → Bool
is_fail fail = true
is_fail _ = false

abbrev pub is_warn : HealthStatus → Bool
is_warn warn = true
is_warn _ = false

-- What the service is composed of. `rounded` is `f"{percent_free:.0f}"`.
pub record Probes : Type 0 where
  pub load : Result SourceCatalog
  pub disk_probe : Payload
  pub dependency_checks : List (Result HealthCheck)
  pub now : ℕ
  pub disk_warn_ratio : Percent
  pub disk_fail_ratio : Percent
  pub index_warn_age : ℕ
  pub rounded : Percent → String

-- Fractions, compared by cross products.
abbrev pub ratio_leb : Percent → Percent → Bool
ratio_leb a b = leb (a.num * b.den) (b.num * a.den)

abbrev pub ratio_min : Percent → Percent → Percent
ratio_min a b = if ratio_leb a b then a else b

abbrev pub warn_ratio : Probes → Percent
warn_ratio c = ratio_min full_percent c.disk_warn_ratio

abbrev pub fail_ratio : Probes → Percent
fail_ratio c = ratio_min (warn_ratio c) c.disk_fail_ratio

unfoldable pub normalise_disk_stats : Payload → Result DiskSnapshot
normalise_disk_stats nothing = err (value_error "disk probe returned no data")
normalise_disk_stats (snapshot s) = ok s
normalise_disk_stats (missing field) = err (other_error ("disk probe payload missing " <> field))
normalise_disk_stats (fields (pos total) (pos available)) =
    ok (record { total_bytes = total; available_bytes = available })
normalise_disk_stats (fields (pos total) (negsuc available)) =
    err (value_error "disk statistics must be non-negative")
normalise_disk_stats (fields (negsuc total) available) =
    err (value_error "disk statistics must be non-negative")

abbrev pub min : ℕ → ℕ → ℕ
min a b = if leb a b then a else b

unfoldable pub score_disk_capacity : Probes → DiskSnapshot → HealthCheck
score_disk_capacity c stats =
    if eqb stats.total_bytes 0
    then record {
      component = disk_capacity;
      status = fail;
      message = "Unable to determine disk capacity; total bytes reported as zero.";
      remediation = some "Verify mount points and ensure the ragcli data volume is accessible.";
      metrics =
          ("total_bytes", count stats.total_bytes)
          ∷ ("available_bytes", count stats.available_bytes)
          ∷ [];
    }
    else let available = min stats.available_bytes stats.total_bytes in
      let ratio : Percent = record { num = available; den = stats.total_bytes } in
      let low = ratio_leb ratio (fail_ratio c) in
      let scarce = ratio_leb ratio (warn_ratio c) in
      record {
        component = disk_capacity;
        status = if low then fail else if scarce then warn else pass;
        message = c.rounded ratio <> "% free space remaining";
        remediation =
            if low || scarce then some "Delete temporary files or expand the partition." else none;
        metrics =
            ("total_bytes", count stats.total_bytes)
            ∷ ("available_bytes", count available)
            ∷ ("percent_free", percentage ratio)
            ∷ [];
      }

-- Microseconds in a day.
abbrev pub day : ℕ
day = 86400000000

-- A negative age counts as zero.
abbrev pub age_of : Probes → SourceCatalog → ℕ
age_of c catalog = c.now - catalog.updated_at

unfoldable pub score_index_freshness : Probes → SourceCatalog → HealthCheck
score_index_freshness c catalog =
    let days = age_of c catalog / day in
    let old = leb c.index_warn_age (age_of c catalog) in
    record {
      component = index_freshness;
      status = if old then warn else pass;
      message =
          if old
          then "Active index is " <> str_nat days <> " days old; refresh recommended."
          else if eqb days 0
          then "Index recently updated."
          else "Index updated " <> str_nat days <> " days ago.";
      remediation =
          if old then some "Run ragadmin reindex to refresh the knowledge index." else none;
      metrics =
          ("catalog_version", count catalog.version)
          ∷ ("age_seconds", count (age_of c catalog / 1000000))
          ∷ ("snapshot_count", count (length catalog.snapshots))
          ∷ [];
    }

abbrev pub is_failing : SourceStatus → Bool
is_failing quarantined = true
is_failing error = true
is_failing active = false
is_failing pending_validation = false

abbrev pub is_pending : SourceStatus → Bool
is_pending pending_validation = true
is_pending _ = false

abbrev pub failing_aliases : SourceCatalog → List String
failing_aliases catalog = map alias_of (keep (λ r. is_failing r.status) catalog.sources)

abbrev pub pending_aliases : SourceCatalog → List String
pending_aliases catalog = map alias_of (keep (λ r. is_pending r.status) catalog.sources)

join_comma : List String → String
join_comma [] = ""
join_comma (x ∷ []) = x
join_comma (x ∷ y ∷ rest) = x <> ", " <> join_comma (y ∷ rest)

-- `", ".join(sorted(aliases))`
abbrev join_sorted : List String → String
join_sorted aliases = join_comma (sort_by (λ s. s) aliases)

abbrev access_check : HealthStatus → String → Option String → SourceCatalog → HealthCheck
access_check status message remediation catalog = record {
  component = source_access;
  status = status;
  message = message;
  remediation = remediation;
  metrics =
      ("active_sources", count (length catalog.sources - length (failing_aliases catalog)))
      ∷ ("failing_sources", count (length (failing_aliases catalog)))
      ∷ ("pending_sources", count (length (pending_aliases catalog)))
      ∷ [];
}

unfoldable pub score_source_access : SourceCatalog → HealthCheck
unfolding join_comma
score_source_access catalog =
    if not (is_nil (failing_aliases catalog))
    then access_check fail
        ("Sources require remediation: " <> join_sorted (failing_aliases catalog))
        (some "Inspect ragadmin sources list/update/remove to resolve quarantined entries.") catalog
    else if not (is_nil (pending_aliases catalog))
    then access_check warn ("Sources pending validation: " <> join_sorted (pending_aliases catalog))
        (some "Run ragadmin reindex or complete validation for pending sources.") catalog
    else if is_nil catalog.sources
    then access_check fail "No sources registered; ingestion must succeed before querying."
        (some "Use ragadmin init/sources add to register knowledge sources.") catalog
    else access_check pass "All sources accessible." none catalog

-- The dependency checks, in order, up to the first that raises.
unfoldable pub run_dependency_checks : List (Result HealthCheck) → Result (List HealthCheck)
run_dependency_checks [] = ok []
run_dependency_checks (r ∷ l) = do check ← r; checks ← run_dependency_checks l; ok (check ∷ checks)

unfoldable pub aggregate_status : List HealthCheck → HealthStatus
aggregate_status checks =
    if any (λ check. is_fail check.status) checks
    then fail
    else if any (λ check. is_warn check.status) checks
    then warn
    else pass

unfoldable pub evaluate : Probes → Result HealthReport
evaluate c = do
  catalog ← c.load
  stats ← normalise_disk_stats c.disk_probe
  dependencies ← run_dependency_checks c.dependency_checks
  let checks =
      score_disk_capacity c stats
      ∷ score_index_freshness c catalog
      ∷ score_source_access catalog
      ∷ dependencies
  ok (record { status = aggregate_status checks; checks = checks; generated_at = c.now })

-- `HealthService`: `register` appends a factory, and `evaluate` runs them all.
unfoldable pub register : Result HealthCheck → List (Result HealthCheck) → List (Result HealthCheck)
register factory factories = factories ++ factory ∷ []

unfoldable pub evaluate_service : ℕ → List (Result HealthCheck) → Result HealthReport
unfolding run_dependency_checks
evaluate_service now factories = do
  checks ← run_dependency_checks factories
  ok (record { status = aggregate_status checks; checks = checks; generated_at = now })
