-- ===== src/Reindex/State.antt =====
-- What a reindex run is composed of, the variables of its loop and its effects: the constructor and the
-- `_emit_progress`, `_emit_completion` and `_log_audit` methods of `ReindexService`. An audit event
-- keeps its details also where they are an empty text, which the entry leaves out.
use linux_rag_t.Ports.Ingestion.{
  running, IngestionJob, IngestionTrigger, SourceCatalog, SourceRecord, SourceSnapshot, SourceType,
  zero_percent,
}
use linux_rag_t.Prelude.{
  ◌+◌, if◌then◌else◌, ℕ, ◌++◌, none, some, ok, err, [], ◌∷◌, Bool, Error, List, Option, Result,
  String,
}
use linux_rag_t.Domain.Models.{ContentIndexVersion}
use linux_rag_t.Files.{Files}

-- When the clock is read.
pub data Moment : Type 0 where
  at_start at_save at_build at_failure : Moment
  at_refresh : String → Moment

-- What the service is composed of, and what the file system holds during the run. The chunk builder
-- gives the calls of its progress callback, then the number of documents or what it raises. Each
-- collaborator that writes gives what it raises. The callbacks of the caller do not raise.
pub record Service : Type 0 where
  pub files : Files
  pub clock : Moment → ℕ
  pub load : Result SourceCatalog
  pub save : SourceCatalog → Option Error
  pub checksum_calculator : String → Result String
  pub chunk_builder : String → String → String → SourceType → List (ℕ × ℕ) × Result ℕ
  pub write_index : ContentIndexVersion → Option Error
  pub append_audit : String → Option Error
  pub sha256 : String → String
  pub index_id : String
  pub has_writer : Bool
  pub has_audit : Bool
  pub on_progress : Bool
  pub on_complete : Bool

pub data Event : Type 0 where
  saved : SourceCatalog → Event
  indexed : ContentIndexVersion → Event
  chunked : String → Event
  progress completed : IngestionJob → Event
  audited : String → Option String → Event

-- The variables of the loop.
pub record Progress : Type 0 where
  pub job : IngestionJob
  pub processed_sources : ℕ
  pub documents_processed : ℕ
  pub updated_sources : List SourceRecord
  pub new_snapshots : List SourceSnapshot
  pub events : List Event

abbrev pub Step : Type 0
Step = Option Error × Progress

abbrev pub then_step : Step → (Progress → Step) → Step
then_step (none, p) f = f p
then_step (some e, p) f = (some e, p)

-- A write, by what it raises and the effect it has otherwise.
abbrev pub wrote : Option Error → Event → Progress → Step
wrote none event p = (none, record p { events = p.events ++ event ∷ [] })
wrote (some e) event p = (some e, p)

abbrev pub log_event : Event → Progress → Progress
log_event e p = record p { events = p.events ++ e ∷ [] }

abbrev pub start_job : ℕ → IngestionTrigger → String → IngestionJob
start_job now trigger job_id = record {
  job_id = job_id;
  source_alias = "*";
  status = running;
  requested_at = now;
  started_at = some now;
  completed_at = none;
  documents_processed = 0;
  stage = some "preparing_index";
  percent_complete = some zero_percent;
  error_message = none;
  trigger = trigger;
}

abbrev pub add_documents : Progress → Result ℕ → Step
add_documents p (err e) = (some e, p)
add_documents p (ok n) = (none, record p { documents_processed = p.documents_processed + n })

module _ (c : Service) where
  unfoldable pub emit_progress : IngestionJob → Progress → Progress
  emit_progress job p = if c.on_progress then log_event (progress job) p else p

  unfoldable pub emit_completion : IngestionJob → Progress → Progress
  emit_completion job p = if c.on_complete then log_event (completed job) p else p

  unfoldable pub log_audit : String → Option String → Progress → Step
  log_audit status details p =
      if c.has_audit then wrote (c.append_audit status) (audited status details) p else (none, p)
