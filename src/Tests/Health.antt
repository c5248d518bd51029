-- ===== src/Tests/Health.antt =====
-- Health reports at concrete probes.
use linux_rag_t.Prelude.{◌↔◌, refl, none, some, ok, [], ◌∷◌, ◌≡◌}
use linux_rag_t.Ports.Ingestion.{man, SourceCatalog, active}
use linux_rag_t.Health.{
  evaluate, snapshot, DiskSnapshot, Probes, aggregate_status, evaluate_service,
  normalise_disk_stats, run_dependency_checks,
}
use linux_rag_t.Health.Verdict.{IsHealthy, evaluate_pass_iff}
use linux_rag_t.Ports.Health.{HealthCheck, HealthReport, HealthStatus, pass, warn, ollama}

abbrev check : HealthStatus → HealthCheck
check status = record {
  component = ollama;
  status = status;
  message = "";
  remediation = none;
  metrics = [];
}

abbrev sources : SourceCatalog
sources = record {
  version = 1;
  updated_at = 5;
  sources =
      record {
        alias = "a";
        type = man;
        location = "/a";
        language = "en";
        size_bytes = 3;
        last_updated = 1;
        status = active;
        checksum = some "x";
        notes = none;
      }
      ∷ [];
  snapshots = [];
}

abbrev space : DiskSnapshot
space = record { total_bytes = 100; available_bytes = 50 }

abbrev probes : Probes
probes = record {
  load = ok sources;
  disk_probe = snapshot space;
  dependency_checks = ok (check pass) ∷ ok (check warn) ∷ [];
  now = 9;
  disk_warn_ratio = record { num = 1; den = 10 };
  disk_fail_ratio = record { num = 8; den = 100 };
  index_warn_age = 30;
  rounded = λ p. "50";
}

checks_ok : run_dependency_checks probes.dependency_checks ≡ ok (check pass ∷ check warn ∷ [])
unfolding run_dependency_checks
checks_ok = refl

evaluate_pass_iff_example :
    (r : HealthReport) × (evaluate probes ≡ ok r)
    × ((r.status ≡ pass) ↔ IsHealthy probes sources space (check pass ∷ check warn ∷ []))
unfolding normalise_disk_stats
evaluate_pass_iff_example =
    evaluate_pass_iff probes sources space (check pass ∷ check warn ∷ []) refl refl checks_ok

abbrev warned : HealthReport
warned = record { status = warn; checks = check pass ∷ check warn ∷ []; generated_at = 9 }

service_ok : evaluate_service 9 probes.dependency_checks ≡ ok warned
unfolding evaluate_service aggregate_status
service_ok = refl
