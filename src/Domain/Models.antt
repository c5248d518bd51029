-- ===== src/Domain/Models.antt =====
-- backend/src/domain/models.py
use linux_rag_t.Prelude.{ℕ, String, Option, List}
use linux_rag_t.Ports.Ingestion.{SourceType, SourceStatus, SourceSnapshot}

pub record KnowledgeSource : Type 0 where
  pub alias : String
  pub type : SourceType
  pub location : String
  pub language : String
  pub size_bytes : ℕ
  pub last_updated : ℕ
  pub status : SourceStatus
  pub checksum : Option String
  pub notes : Option String
  pub created_at : ℕ
  pub updated_at : ℕ

pub data IndexStatus : Type 0 where
  ready stale building failed : IndexStatus

pub record ContentIndexVersion : Type 0 where
  pub index_id : String
  pub status : IndexStatus
  pub checksum : String
  pub source_snapshot : List SourceSnapshot
  pub size_bytes : ℕ
  pub document_count : ℕ
  pub trigger_job_id : String
  pub built_at : Option ℕ
  pub freshness_expires_at : Option ℕ
  pub retrieval_latency_ms : Option ℕ
  pub llm_latency_ms : Option ℕ
