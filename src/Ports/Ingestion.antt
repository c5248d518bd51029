-- ===== src/Ports/Ingestion.antt =====
-- backend/src/ports/ingestion.py: catalog records and ingestion jobs. A time is a number of
-- microseconds. A percentage is the exact fraction `100 * num / den`, where the code has a float.
use linux_rag_t.Prelude.{ℕ, String, Option, List, Bool, true, false}

pub data SourceType : Type 0 where
  man kiwix info : SourceType

-- `source_type.value`
abbrev pub type_value : SourceType → String
type_value man = "man"
type_value kiwix = "kiwix"
type_value info = "info"

pub data SourceStatus : Type 0 where
  pending_validation active quarantined error : SourceStatus

abbrev pub is_active : SourceStatus → Bool
is_active active = true
is_active _ = false

pub data IngestionStatus : Type 0 where
  queued running succeeded failed cancelled : IngestionStatus

pub data IngestionTrigger : Type 0 where
  init manual scheduled : IngestionTrigger

pub record Percent : Type 0 where
  pub num : ℕ
  pub den : ℕ

abbrev pub zero_percent : Percent
zero_percent = record { num = 0; den = 1 }

abbrev pub full_percent : Percent
full_percent = record { num = 1; den = 1 }

pub record SourceCreateRequest : Type 0 where
  pub type : SourceType
  pub location : String
  pub language : Option String
  pub notes : Option String

pub record SourceUpdateRequest : Type 0 where
  pub location : Option String
  pub notes : Option String
  pub language : Option String
  pub status : Option SourceStatus

pub record SourceRecord : Type 0 where
  pub alias : String
  pub type : SourceType
  pub location : String
  pub language : String
  pub size_bytes : ℕ
  pub last_updated : ℕ
  pub status : SourceStatus
  pub checksum : Option String
  pub notes : Option String

pub record SourceSnapshot : Type 0 where
  pub alias : String
  pub checksum : String

pub record SourceCatalog : Type 0 where
  pub version : ℕ
  pub updated_at : ℕ
  pub sources : List SourceRecord
  pub snapshots : List SourceSnapshot

pub record IngestionJob : Type 0 where
  pub job_id : String
  pub source_alias : String
  pub status : IngestionStatus
  pub requested_at : ℕ
  pub started_at : Option ℕ
  pub completed_at : Option ℕ
  pub documents_processed : ℕ
  pub stage : Option String
  pub percent_complete : Option Percent
  pub error_message : Option String
  pub trigger : IngestionTrigger
