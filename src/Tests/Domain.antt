-- ===== src/Tests/Domain.antt =====
-- Sources, index versions and jobs through their life cycles.
use linux_rag_t.Domain.Sources.Lifecycle.{
  quarantine, begin, Follows, Kept, validate, act, History-never_pending, act-Edge, then_act,
}
use linux_rag_t.Prelude.{
  ◌≢◌, ◌↔◌, ◌++◌, refl, none, some, inr, ok, [], arith, ◌∷◌, List, Perm, String, ◌≡◌,
}
use linux_rag_t.Domain.Models.{building, ready, ContentIndexVersion, KnowledgeSource}
use linux_rag_t.Ports.Ingestion.{
  quarantined, manual, succeeded, active, failed, man, queued, running, IngestionJob,
  pending_validation, zero_percent,
}
use linux_rag_t.Domain.Recovery.Resume.{runs, IsJob, JobStep-IsJob, resume_checkpoint}
use linux_rag_t.Domain.Recovery.{
  collection, resume, Checkpoint, ResumePlan, plan_of, plan_resume, record_progress,
}
use linux_rag_t.Domain.Sources.{mark_ingestion_running}
use linux_rag_t.Domain.Recovery.Progress.{checkpoint_plan_perm}

abbrev pages : KnowledgeSource
pages = record {
  alias = "man-pages";
  type = man;
  location = "/usr/share/man";
  language = "en";
  size_bytes = 10;
  last_updated = 1;
  status = pending_validation;
  checksum = none;
  notes = none;
  created_at = 1;
  updated_at = 1;
}

abbrev valid_pages : KnowledgeSource
valid_pages = record pages {
  status = active;
  checksum = some "abc";
  size_bytes = 12;
  last_updated = 5;
  updated_at = 5;
}

validate_pages : act 5 (validate "abc" 12) pages ≡ ok valid_pages
unfolding act
validate_pages = refl

act-Edge_example : Follows 5 (validate "abc" 12) pending_validation pages valid_pages
act-Edge_example = act-Edge 5 (validate "abc" 12) pages valid_pages validate_pages

abbrev withdrawn_pages : KnowledgeSource
withdrawn_pages = record valid_pages { status = quarantined; notes = some "stale"; updated_at = 9 }

withdraw_pages : act 9 (quarantine "stale") valid_pages ≡ ok withdrawn_pages
unfolding act
withdraw_pages = refl

History-never_pending_example :
    Kept valid_pages withdrawn_pages
    × (active ≢ pending_validation → quarantined ≢ pending_validation)
History-never_pending_example =
    History-never_pending valid_pages withdrawn_pages
      (then_act 9 (quarantine "stale") begin withdraw_pages)

abbrev draft : ContentIndexVersion
draft = record {
  index_id = "i";
  status = building;
  checksum = "";
  source_snapshot = [];
  size_bytes = 0;
  document_count = 0;
  trigger_job_id = "j";
  built_at = none;
  freshness_expires_at = none;
  retrieval_latency_ms = none;
  llm_latency_ms = none;
}

abbrev built : ContentIndexVersion
built = record draft {
  status = ready;
  built_at = some 100;
  document_count = 4;
  size_bytes = 9;
  freshness_expires_at = some 150;
}

abbrev job : IngestionJob
job = record {
  job_id = "job";
  source_alias = "man-pages";
  status = running;
  requested_at = 1;
  started_at = some 2;
  completed_at = none;
  documents_processed = 0;
  stage = some "vectorizing";
  percent_complete = some zero_percent;
  error_message = none;
  trigger = manual;
}

abbrev crashed : IngestionJob
crashed = record job { status = failed; completed_at = some 9; error_message = some "crash" }

abbrev docs : List String
docs = "a" ∷ "b" ∷ "c" ∷ []

abbrev half_way : Checkpoint
half_way = record {
  processed_document_ids = "a" ∷ "c" ∷ [];
  percent_complete = record { num = 2; den = 3 };
  captured_at = 4;
}

record_half_way : record_progress 4 job (collection ("c" ∷ "a" ∷ [])) docs ≡ ok half_way
unfolding record_progress
record_half_way = refl

checkpoint_plan_perm_example : Perm (("a" ∷ "c" ∷ []) ++ "b" ∷ []) docs
unfolding plan_resume
checkpoint_plan_perm_example =
    checkpoint_plan_perm 4 10 job crashed ("c" ∷ "a" ∷ []) docs half_way
      (plan_of 10 crashed half_way docs) record_half_way refl

resume_checkpoint_example :
    (k : IngestionJob) × (p : ResumePlan) × (resume 10 11 crashed docs (some half_way) ≡ ok (k, p))
    × (k.documents_processed ≡ 2)
    × ((k.status ≡ succeeded) ↔ (half_way.processed_document_ids ≡ docs))
resume_checkpoint_example =
    resume_checkpoint 4 10 11 job crashed ("c" ∷ "a" ∷ []) docs half_way record_half_way (λ e. cc e)
      (inr refl)

abbrev waiting : IngestionJob
waiting = record job { status = queued; started_at = none }

waiting-IsJob : IsJob waiting
waiting-IsJob = record {
  started = λ e. absurd (ground arith);
  complete = λ e. absurd (ground arith);
  open_running = λ e. refl;
  open_queued = λ e. refl;
}

JobStep-IsJob_example :
    IsJob (record waiting { status = running; started_at = some 3; stage = some "chunking" })
unfolding mark_ingestion_running
JobStep-IsJob_example = JobStep-IsJob waiting _ (runs 3 "chunking" refl) waiting-IsJob
