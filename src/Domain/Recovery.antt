-- ===== src/Domain/Recovery.antt =====
-- backend/src/domain/job_recovery.py: checkpoints of an ingestion job, and plans to resume it.
pub mod Progress
pub mod Resume
use linux_rag_t.Ports.Ingestion.{
  running, succeeded, IngestionJob, IngestionStatus, Percent, full_percent, zero_percent,
}
use linux_rag_t.Ports.Ingestion.{failed}
use linux_rag_t.Prelude.{
  ◌>>=◌, truthy, contains, not, if◌then◌else◌, keep, ◌<>◌, length, ℕ, none, some, ok, err, true,
  false, [], Bool, List, Option, Result, String, is_nil, or_default, or_empty, value_error, ◌≡◌,
}

pub record Checkpoint : Type 0 where
  pub processed_document_ids : List String
  pub percent_complete : Percent
  pub captured_at : ℕ

pub record ResumePlan : Type 0 where
  pub remaining_document_ids : List String
  pub percent_complete : Percent
  pub resume_stage : String
  pub recovery_started_at : ℕ

-- An `Iterable[str]`: a collection can be read again, a generator yields its items once.
pub data Iterable : Type 0 where
  collection : List String → Iterable
  generator : List String → Iterable

abbrev pub items : Iterable → List String
items (collection l) = l
items (generator l) = l

-- What is left to read after one pass.
abbrev pub after_pass : Iterable → Iterable
after_pass (collection l) = collection l
after_pass (generator l) = generator []

abbrev pub percent_of : List String → List String → Percent
percent_of done all = record { num = length done; den = length all }

-- `len(set(processed_document_ids))` for the trace reads the iterable once before the work does.
unfoldable pub record_progress : ℕ → IngestionJob → Iterable → List String → Result Checkpoint
record_progress now job processed_document_ids document_ids =
    let processed_set = items (after_pass processed_document_ids) in
    let ordered = keep (contains processed_set) document_ids in
    elim job.status [
      | running ↦
          if is_nil document_ids
          then ok (record {
            processed_document_ids = [];
            percent_complete = zero_percent;
            captured_at = now;
          })
          else ok (record {
            processed_document_ids = ordered;
            percent_complete = percent_of ordered document_ids;
            captured_at = now;
          })
      | _ ↦ err (value_error "only running jobs can be checkpointed")
    ]

abbrev can_resume : IngestionStatus → Bool
can_resume running = true
can_resume failed = true
can_resume _ = false

abbrev pub plan_of : ℕ → IngestionJob → Checkpoint → List String → ResumePlan
plan_of now job checkpoint document_ids = record {
  remaining_document_ids =
      keep (λ d. not (contains checkpoint.processed_document_ids d)) document_ids;
  percent_complete = checkpoint.percent_complete;
  resume_stage =
      if truthy job.stage then "resuming_" <> or_empty job.stage else "resuming_ingestion";
  recovery_started_at = now;
}

unfoldable pub plan_resume : ℕ → IngestionJob → Option Checkpoint → List String → Result ResumePlan
plan_resume now job none document_ids =
    err (value_error "checkpoint state is required to resume ingestion")
plan_resume now job (some checkpoint) document_ids =
    if can_resume job.status
    then ok (plan_of now job checkpoint document_ids)
    else err (value_error "only running or failed jobs can be resumed")

-- The plan of `resume`: without a checkpoint everything is to be done.
pub first_plan : ℕ → IngestionJob → Option Checkpoint → List String → Result ResumePlan
first_plan now job none document_ids = ok (record {
  remaining_document_ids = document_ids;
  percent_complete = zero_percent;
  resume_stage = "resuming_" <> or_default job.stage "ingestion";
  recovery_started_at = now;
})
first_plan now job (some checkpoint) document_ids =
    plan_resume now job (some checkpoint) document_ids

abbrev processed_count : Option Checkpoint → ℕ → ℕ
processed_count none n = n
processed_count (some checkpoint) n = length checkpoint.processed_document_ids

-- The job to go on with: done if nothing remains, and running again if something does.
pub resumed_job : ℕ → IngestionJob → Option Checkpoint → List String → ResumePlan → IngestionJob
resumed_job finished_at job checkpoint document_ids plan =
    if is_nil plan.remaining_document_ids
    then record job {
      status = succeeded;
      completed_at = some finished_at;
      documents_processed = length document_ids;
      stage = some "completed";
      percent_complete = some full_percent;
      error_message = none;
    }
    else record job {
      status = running;
      stage = some plan.resume_stage;
      started_at = elim job.started_at [ none ↦ some plan.recovery_started_at | some t ↦ some t ];
      completed_at = none;
      percent_complete = some plan.percent_complete;
      error_message = none;
      documents_processed = processed_count checkpoint job.documents_processed;
    }

-- `resume`, with the clock's reading for the plan and the one for the completion.
unfoldable pub resume :
    ℕ → ℕ → IngestionJob → List String → Option Checkpoint → Result (IngestionJob × ResumePlan)
unfolding first_plan resumed_job plan_resume
resume planned_at finished_at job document_ids checkpoint =
    if is_nil document_ids
    then err (value_error "document_ids must contain at least one entry")
    else (do
      plan ← first_plan planned_at job checkpoint document_ids
      ok (resumed_job finished_at job checkpoint document_ids plan, plan))
