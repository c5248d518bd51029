-- ===== src/Health/Verdict.antt =====
-- What a report that passes says of the system.
use linux_rag_t.Prelude.{
  keep, map, refl, ok, [], arith, ◌∷◌, ◌*◌, ◌<◌, ◌↔◌, true, false, All, List, is_nil, ◌≡◌,
}
use linux_rag_t.Health.{
  evaluate, age_of, aggregate_status, is_failing, is_pending, normalise_disk_stats,
  run_dependency_checks, score_source_access, min, DiskSnapshot, Probes, fail_ratio,
  score_disk_capacity, score_index_freshness, warn_ratio,
}
use linux_rag_t.Health.Aggregate.{aggregate_pass_iff}
use linux_rag_t.Ports.Ingestion.{SourceRecord, Percent, SourceCatalog, is_active}
use linux_rag_t.Catalog.Service.{alias_of}
use linux_rag_t.Ports.Health.{HealthReport, HealthCheck, pass}

-- The free share of the disk is above a threshold.
abbrev pub Above : Percent → DiskSnapshot → Type 0
Above threshold stats =
    threshold.num * stats.total_bytes < min stats.available_bytes stats.total_bytes * threshold.den

pub record IsHealthy (c : Probes) (catalog : SourceCatalog) (stats : DiskSnapshot)
    (dependencies : List HealthCheck) : Type 0 where
  pub mounted : 0 < stats.total_bytes
  pub above_warn : Above (warn_ratio c) stats
  pub above_fail : Above (fail_ratio c) stats
  pub fresh : age_of c catalog < c.index_warn_age
  pub some_source : is_nil catalog.sources ≡ false
  pub all_active : All (λ r. is_active r.status ≡ true) catalog.sources
  pub dependable : All (λ check. check.status ≡ pass) dependencies

disk_pass_iff :
    (c : Probes) (stats : DiskSnapshot)
    → ((score_disk_capacity c stats).status ≡ pass)
      ↔ ((0 < stats.total_bytes) × Above (warn_ratio c) stats × Above (fail_ratio c) stats)
unfolding score_disk_capacity
disk_pass_iff c stats = (λ h. (ground arith, ground arith, ground arith), λ h. ground arith)

index_pass_iff :
    (c : Probes) (catalog : SourceCatalog)
    → ((score_index_freshness c catalog).status ≡ pass) ↔ (age_of c catalog < c.index_warn_age)
unfolding score_index_freshness
index_pass_iff c catalog = (λ h. ground arith, λ h. ground arith)

healthy_sources_iff :
    (l : List SourceRecord)
    → ((is_nil (map alias_of (keep (λ r. is_failing r.status) l)) ≡ true)
        × (is_nil (map alias_of (keep (λ r. is_pending r.status) l)) ≡ true))
      ↔ All (λ r. is_active r.status ≡ true) l
healthy_sources_iff [] = (λ h. tt, λ h. (refl, refl))
healthy_sources_iff (r ∷ l) = (
  λ h. (ground arith, (healthy_sources_iff l).0 (ground arith, ground arith)),
  λ h. (
    ground (arith, h.0, ((healthy_sources_iff l).1 h.1).0),
    ground (arith, h.0, ((healthy_sources_iff l).1 h.1).1),
  ),
)

source_pass_iff :
    (catalog : SourceCatalog)
    → ((score_source_access catalog).status ≡ pass)
      ↔ ((is_nil catalog.sources ≡ false) × All (λ r. is_active r.status ≡ true) catalog.sources)
unfolding score_source_access
source_pass_iff catalog = (
  λ h. (ground arith, (healthy_sources_iff catalog.sources).0 (ground arith, ground arith)),
  λ h. ground (
    arith,
    h.0,
    ((healthy_sources_iff catalog.sources).1 h.1).0,
    ((healthy_sources_iff catalog.sources).1 h.1).1,
  ),
)

-- With a catalog that loads, a disk probe that gives a snapshot and dependency checks that raise
-- nothing, `evaluate` returns a report, and it passes exactly if the disk has more free space than
-- both thresholds, the catalog is younger than the age of warning, there is a source, all sources are
-- active and each dependency check passes.
pub evaluate_pass_iff :
    (c : Probes) (catalog : SourceCatalog) (stats : DiskSnapshot) (dependencies : List HealthCheck)
    → c.load ≡ ok catalog
    → normalise_disk_stats c.disk_probe ≡ ok stats
    → run_dependency_checks c.dependency_checks ≡ ok dependencies
    → (r : HealthReport) × (evaluate c ≡ ok r)
      × ((r.status ≡ pass) ↔ IsHealthy c catalog stats dependencies)
unfolding evaluate
evaluate_pass_iff c catalog stats dependencies loaded probed checked =
    let checks =
      score_disk_capacity c stats
      ∷ score_index_freshness c catalog
      ∷ score_source_access catalog
      ∷ dependencies in
    (
      record { status = aggregate_status checks; checks = checks; generated_at = c.now },
      rw (loaded, probed, checked) refl,
      (
        λ h.
            (let all = (aggregate_pass_iff checks).0 h in
              let disk = (disk_pass_iff c stats).0 all.0 in
              let sources = (source_pass_iff catalog).0 all.1.1.0 in
              record {
                mounted = disk.0;
                above_warn = disk.1;
                above_fail = disk.2;
                fresh = (index_pass_iff c catalog).0 all.1.0;
                some_source = sources.0;
                all_active = sources.1;
                dependable = all.1.1.1;
              }),
        λ k. (aggregate_pass_iff checks).1 (
          (disk_pass_iff c stats).1 (k.mounted, k.above_warn, k.above_fail),
          (
            (index_pass_iff c catalog).1 k.fresh,
            ((source_pass_iff catalog).1 (k.some_source, k.all_active), k.dependable),
          ),
        ),
      ),
    )
