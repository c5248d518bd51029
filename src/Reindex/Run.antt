-- ===== src/Reindex/Run.antt =====
-- `ReindexService.run` around its loop: the new catalog, the index version, and how a run ends.
use linux_rag_t.Reindex.State.{
  at_start, indexed, saved, wrote, Event, Progress, Service, Step, at_build, at_failure, at_save,
  emit_completion, emit_progress, log_audit, start_job, then_step,
}
use linux_rag_t.Prelude.{
  ◌*◌, if◌then◌else◌, length, message, ℕ, ◌+◌, ◌<>◌, none, some, ok, err, [], ◌∷◌, Bool, Error,
  List, Result, String,
}
use linux_rag_t.Domain.Models.{ready, ContentIndexVersion}
use linux_rag_t.Ports.Ingestion.{
  succeeded, IngestionJob, IngestionStatus, IngestionTrigger, SourceCatalog, SourceRecord,
  SourceSnapshot, full_percent, is_active,
}
use linux_rag_t.Prelude.Sort.{sort_by}
use linux_rag_t.Catalog.Service.{alias_of, snapshot_alias}
use linux_rag_t.Transport.Index.{active_sources}
use linux_rag_t.Reindex.Source.{reindex_all}

abbrev pub snapshot_text : List SourceSnapshot → String
snapshot_text [] = ""
snapshot_text (s ∷ l) = s.alias <> s.checksum <> snapshot_text l

abbrev pub active_size_bytes : List SourceRecord → ℕ
active_size_bytes [] = 0
active_size_bytes (r ∷ l) =
    let rest = active_size_bytes l in if is_active r.status then r.size_bytes + rest else rest

module _ (c : Service) where
  -- `_snapshot_checksum`. The texts are hashed one after the other.
  abbrev pub snapshot_checksum : List SourceSnapshot → String
  snapshot_checksum l = c.sha256 (snapshot_text (sort_by snapshot_alias l))

  abbrev pub new_catalog : SourceCatalog → Progress → SourceCatalog
  new_catalog catalog p = record {
    version = catalog.version + 1;
    updated_at = c.clock at_save;
    sources = sort_by alias_of p.updated_sources;
    snapshots = p.new_snapshots;
  }

  abbrev pub new_index : Progress → ContentIndexVersion
  new_index p = record {
    index_id = c.index_id;
    status = ready;
    checksum = snapshot_checksum p.new_snapshots;
    source_snapshot = p.new_snapshots;
    size_bytes = active_size_bytes (sort_by alias_of p.updated_sources);
    document_count = p.documents_processed;
    trigger_job_id = p.job.job_id;
    built_at = some (c.clock at_build);
    freshness_expires_at = some (c.clock at_build + 30 * 86400000000);
    retrieval_latency_ms = none;
    llm_latency_ms = none;
  }

  abbrev pub final_job : IngestionJob → IngestionJob
  final_job job = record job {
    status = succeeded;
    completed_at = some (c.clock at_build);
    stage = some "completed";
    percent_complete = some full_percent;
  }

  unfoldable pub save_catalog : SourceCatalog → Progress → Step
  save_catalog catalog p = wrote (c.save catalog) (saved catalog) p

  unfoldable pub write_version : Progress → Step
  write_version p =
      if c.has_writer
      then wrote (c.write_index (new_index p)) (indexed (new_index p)) p
      else (none, p)

  -- What follows the loop.
  unfoldable pub conclude : SourceCatalog → Progress → Step
  unfolding save_catalog write_version emit_completion log_audit
  conclude catalog p = then_step (save_catalog (new_catalog catalog p) p) (λ q.
      then_step (write_version q)
        (λ t. log_audit c "success" none (emit_completion c (final_job t.job) t)))

  abbrev pub attempt_on : Bool → Progress → Result SourceCatalog → Step
  attempt_on force p (err e) = (some e, p)
  attempt_on force p (ok catalog) =
      then_step (reindex_all c (length (active_sources catalog.sources)) force catalog.sources p)
        (conclude catalog)

  -- The `try` block of `run`.
  unfoldable pub attempt : Bool → Progress → Step
  unfolding reindex_all conclude
  attempt force p = attempt_on force p c.load

  abbrev pub failed_job : Error → IngestionJob → IngestionJob
  failed_job e job = record job {
    status = IngestionStatus.failed;
    completed_at = some (c.clock at_failure);
    stage = some "failed";
    error_message = some (message e);
  }

  abbrev pub raises : Error → Step → Result IngestionJob × List Event
  raises e (none, q) = (err e, q.events)
  raises e (some f, q) = (err f, q.events)

  -- The `except` block raises again, or what the audit log raises instead.
  unfoldable pub fail : Error → Progress → Result IngestionJob × List Event
  unfolding emit_completion log_audit
  fail e p =
      raises e (log_audit c "failure" (some (message e)) (emit_completion c (failed_job e p.job) p))

  abbrev pub initial : IngestionTrigger → String → Progress
  initial trigger job_id = record {
    job = start_job (c.clock at_start) trigger job_id;
    processed_sources = 0;
    documents_processed = 0;
    updated_sources = [];
    new_snapshots = [];
    events = [];
  }

  abbrev pub finish : Step → Result IngestionJob × List Event
  finish (none, q) = (ok (final_job q.job), q.events)
  finish (some e, q) = fail e q

  abbrev pub start : Step → Bool → Result IngestionJob × List Event
  start (some e, p) force = (err e, p.events)
  start (none, p) force = finish (attempt force p)

  unfoldable pub run : IngestionTrigger → String → Bool → Result IngestionJob × List Event
  unfolding emit_progress log_audit attempt fail
  run trigger job_id force =
      start
        (log_audit c "started" none
          (emit_progress c (initial trigger job_id).job (initial trigger job_id)))
        force
