-- ===== src/Tests/Reindex.antt =====
-- A reindex run over two active sources, one of which has changed, and one withdrawn source.
use linux_rag_t.Prelude.{
  arith, All, map, ◌<>◌, ◌↔◌, ◌⊎◌, refl, none, some, ok, true, false, [], ◌∷◌, List, Perm, Result,
  String, ◌≡◌,
}
use linux_rag_t.Reindex.Bounds.{InBounds}
use linux_rag_t.Reindex.Percent.{run-InBounds}
use linux_rag_t.Reindex.Ends.{run_ends, Failed, Succeeded}
use linux_rag_t.Reindex.Current.{run_current}
use linux_rag_t.Reindex.Chunked.{chunks-run, chunks}
use linux_rag_t.Reindex.Kept.{lasting}
use linux_rag_t.Ports.Ingestion.{
  manual, quarantined, active, man, succeeded, IngestionJob, SourceCatalog, SourceRecord,
  SourceStatus, full_percent,
}
use linux_rag_t.Reindex.Run.{run}
use linux_rag_t.Reindex.State.{Event, Service}
use linux_rag_t.Reindex.Saves.{saves}
use linux_rag_t.Transport.Index.Current.{IsCurrent, ensure_index_current_iff}
use linux_rag_t.Transport.Index.{ensure_index_current}
use linux_rag_t.Files.{Files, resolve_location}

abbrev pub disk : Files
disk = record {
  expand = λ s. s;
  exists = λ s. true;
  is_file = λ s. true;
  stem = λ s. s;
  name = λ s. s;
  size = λ s. 7;
}

abbrev pub source : String → SourceStatus → String → SourceRecord
source alias status checksum = record {
  alias = alias;
  type = man;
  location = alias;
  language = "en";
  size_bytes = 3;
  last_updated = 1;
  status = status;
  checksum = some checksum;
  notes = none;
}

abbrev pub before : SourceCatalog
before = record {
  version = 4;
  updated_at = 1;
  sources =
      source "a" active "sum a" ∷ source "b" quarantined "sum b" ∷ source "c" active "old" ∷ [];
  snapshots = [];
}

abbrev pub service : Service
service = record {
  files = disk;
  clock = λ m. 9;
  load = ok before;
  save = λ s. none;
  checksum_calculator = λ location. ok ("sum " <> location);
  chunk_builder = λ alias checksum location kind. ((1, 2) ∷ (2, 2) ∷ [], ok 2);
  write_index = λ v. none;
  append_audit = λ status. none;
  sha256 = λ s. s;
  index_id = "i";
  has_writer = true;
  has_audit = true;
  on_progress = true;
  on_complete = true;
}

abbrev outcome : Result IngestionJob × List Event
outcome = run service manual "job" false

abbrev last_job : IngestionJob
last_job = record {
  job_id = "job";
  source_alias = "*";
  status = succeeded;
  requested_at = 9;
  started_at = some 9;
  completed_at = some 9;
  documents_processed = 2;
  stage = some "completed";
  percent_complete = some full_percent;
  error_message = none;
  trigger = manual;
}

outcome_ok : outcome.0 ≡ ok last_job
unfolding run resolve_location
outcome_ok = refl

run_ends_example : Succeeded outcome ⊎ Failed service outcome
run_ends_example = run_ends service manual "job" false refl (λ s. refl)

run_current_example :
    (new : SourceCatalog) × (saves outcome.1 ≡ new ∷ [])
    × (new.version ≡ 5)
    × Perm (map lasting new.sources) (map lasting before.sources)
    × (ensure_index_current new ≡ none)
run_current_example =
    run_current service manual "job" false before last_job refl (λ s. refl) refl
      (refl, (refl, (refl, tt))) refl outcome_ok

chunks-run_example : chunks outcome.1 ≡ "c" ∷ []
unfolding resolve_location
chunks-run_example =
    chunks-run service manual "job" false before last_job (λ s. refl) refl outcome_ok

ensure_index_current_iff_example : (ensure_index_current before ≡ none) ↔ IsCurrent before
ensure_index_current_iff_example = ensure_index_current_iff before

run-InBounds_example : All InBounds outcome.1
run-InBounds_example =
    run-InBounds service manual "job" false
      (λ alias checksum location kind. (omega arith, (omega arith, tt)))
