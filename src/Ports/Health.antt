-- ===== src/Ports/Health.antt =====
-- backend/src/ports/health.py
use linux_rag_t.Prelude.{ℕ, String, Option, List}
use linux_rag_t.Ports.Ingestion.{Percent}

pub data HealthStatus : Type 0 where
  pass warn fail : HealthStatus

pub data HealthComponent : Type 0 where
  index_freshness source_access disk_capacity ollama weaviate phoenix : HealthComponent

-- A metric: an `int`, or a `float` that is 100 times a fraction.
pub data Metric : Type 0 where
  count : ℕ → Metric
  percentage : Percent → Metric

-- The timestamp, which nothing reads, is left out.
pub record HealthCheck : Type 0 where
  pub component : HealthComponent
  pub status : HealthStatus
  pub message : String
  pub remediation : Option String
  pub metrics : List (String × Metric)

pub record HealthReport : Type 0 where
  pub status : HealthStatus
  pub checks : List HealthCheck
  pub generated_at : ℕ
