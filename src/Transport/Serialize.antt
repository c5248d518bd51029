-- ===== src/Transport/Serialize.antt =====
-- backend/src/common/serializers.py: the payloads of responses. All times are in UTC. The time of a
-- health check is an argument.
use linux_rag_t.Prelude.{
  ◌*◌, nonempty, if◌then◌else◌, map, ◌++◌, ℕ, none, some, [], ◌∷◌, List, Option, String,
}
use linux_rag_t.Query.{ratio, Citation, Float, QueryResponse, Reference}
use linux_rag_t.Ports.Health.{
  percentage, count, HealthCheck, HealthComponent, HealthReport, HealthStatus, Metric,
  disk_capacity, index_freshness, source_access, pass, warn, ollama, weaviate, phoenix,
}
use linux_rag_t.Ports.Ingestion.{
  queued, running, succeeded, cancelled, init, manual, scheduled, IngestionJob, IngestionStatus,
  IngestionTrigger, Percent, SourceCatalog, SourceRecord, SourceSnapshot, type_value,
}
use linux_rag_t.Json.{
  boolean, number, real, Json, Codec, json_dict, json_list, optional_number, optional_text,
  optional_time, null, text,
}
use linux_rag_t.Storage.{status_value}

abbrev pub ingestion_status_value : IngestionStatus → String
ingestion_status_value queued = "queued"
ingestion_status_value running = "running"
ingestion_status_value succeeded = "succeeded"
ingestion_status_value IngestionStatus.failed = "failed"
ingestion_status_value cancelled = "cancelled"

abbrev pub trigger_value : IngestionTrigger → String
trigger_value init = "init"
trigger_value manual = "manual"
trigger_value scheduled = "scheduled"

-- `_status_string`
abbrev pub health_status_value : HealthStatus → String
health_status_value pass = "pass"
health_status_value warn = "warn"
health_status_value HealthStatus.fail = "fail"

abbrev pub component_value : HealthComponent → String
component_value index_freshness = "index_freshness"
component_value source_access = "source_access"
component_value disk_capacity = "disk_capacity"
component_value ollama = "ollama"
component_value weaviate = "weaviate"
component_value phoenix = "phoenix"

-- A percentage is the fraction `100 * num / den`.
abbrev pub percent_json : Percent → Json
percent_json p = real (ratio (100 * p.num) p.den)

abbrev pub optional_percent : Option Percent → Json
optional_percent none = null
optional_percent (some p) = percent_json p

abbrev pub metric_json : Metric → Json
metric_json (count n) = number n
metric_json (percentage p) = percent_json p

abbrev pub optional_float : Option Float → Json
optional_float none = null
optional_float (some x) = real x

unfoldable pub serialize_reference : Reference → Json
serialize_reference r =
    json_dict (
      ("label", text r.label)
      ∷ ("url", optional_text r.url)
      ∷ ("notes", optional_text r.notes)
      ∷ [])

unfoldable pub serialize_citation : Citation → Json
serialize_citation r = json_dict (
    ("alias", text r.alias)
    ∷ ("document_ref", text r.document_ref)
    ∷ ("excerpt", optional_text r.excerpt)
    ∷ [])

unfoldable pub serialize_query_response : QueryResponse → Json
unfolding serialize_reference serialize_citation
serialize_query_response r = json_dict (
    ("summary", text r.summary)
    ∷ ("steps", json_list (map text r.steps))
    ∷ ("references", json_list (map serialize_reference r.references))
    ∷ ("citations", json_list (map serialize_citation r.citations))
    ∷ ("confidence", real r.confidence)
    ∷ ("trace_id", text r.trace_id)
    ∷ ("latency_ms", number r.latency_ms)
    ∷ ("retrieval_latency_ms", optional_number r.retrieval_latency_ms)
    ∷ ("llm_latency_ms", optional_number r.llm_latency_ms)
    ∷ ("index_version", optional_text r.index_version)
    ∷ ("answer", optional_text r.answer)
    ∷ ("no_answer", boolean r.no_answer)
    ∷ ("semantic_chunk_count", optional_number r.semantic_chunk_count)
    ∷ ("context_truncated", boolean r.context_truncated)
    ∷ ("confidence_threshold", optional_float r.confidence_threshold)
    ∷ ("stale_index_detected", boolean r.stale_index_detected)
    ∷ ("backend_correlation_id", optional_text r.backend_correlation_id)
    ∷ [])

abbrev pub remediation_entry : Option String → List (String × Json)
remediation_entry none = []
remediation_entry (some s) = if nonempty s then ("remediation", text s) ∷ [] else []

abbrev pub metrics_entry : List (String × Metric) → List (String × Json)
metrics_entry [] = []
metrics_entry (m ∷ l) = ("metrics", json_dict (map (λ e. (e.0, metric_json e.1)) (m ∷ l))) ∷ []

module _ (c : Codec) where
  unfoldable pub serialize_source_record : SourceRecord → Json
  serialize_source_record r = json_dict (
      ("alias", text r.alias)
      ∷ ("type", text (type_value r.type))
      ∷ ("location", text r.location)
      ∷ ("language", text r.language)
      ∷ ("status", text (status_value r.status))
      ∷ ("last_updated", text (c.isoformat r.last_updated))
      ∷ ("size_bytes", number r.size_bytes)
      ∷ ("checksum", optional_text r.checksum)
      ∷ ("notes", optional_text r.notes)
      ∷ [])

  unfoldable pub serialize_snapshot : SourceSnapshot → Json
  serialize_snapshot s = json_dict (("alias", text s.alias) ∷ ("checksum", text s.checksum) ∷ [])

  unfoldable pub serialize_catalog : SourceCatalog → Json
  unfolding serialize_source_record serialize_snapshot
  serialize_catalog catalog = json_dict (
      ("catalog_version", number catalog.version)
      ∷ ("updated_at", text (c.isoformat catalog.updated_at))
      ∷ ("sources", json_list (map serialize_source_record catalog.sources))
      ∷ ("snapshots", json_list (map serialize_snapshot catalog.snapshots))
      ∷ [])

  unfoldable pub serialize_ingestion_job : IngestionJob → Json
  serialize_ingestion_job job = json_dict (
      ("job_id", text job.job_id)
      ∷ ("source_alias", text job.source_alias)
      ∷ ("status", text (ingestion_status_value job.status))
      ∷ ("requested_at", text (c.isoformat job.requested_at))
      ∷ ("started_at", optional_time c job.started_at)
      ∷ ("completed_at", optional_time c job.completed_at)
      ∷ ("documents_processed", number job.documents_processed)
      ∷ ("stage", optional_text job.stage)
      ∷ ("percent_complete", optional_percent job.percent_complete)
      ∷ ("error_message", optional_text job.error_message)
      ∷ ("trigger", text (trigger_value job.trigger))
      ∷ [])

  module _ (timestamp : HealthCheck → ℕ) where
    unfoldable pub serialize_health_check : HealthCheck → Json
    serialize_health_check check = json_dict (
        ("component", text (component_value check.component))
        ∷ ("status", text (health_status_value check.status))
        ∷ ("message", text check.message)
        ∷ ("timestamp", text (c.isoformat (timestamp check)))
        ∷ (remediation_entry check.remediation ++ metrics_entry check.metrics))

    unfoldable pub serialize_health_report : HealthReport → Json
    unfolding serialize_health_check
    serialize_health_report report = json_dict (
        ("overall_status", text (health_status_value report.status))
        ∷ ("generated_at", text (c.isoformat report.generated_at))
        ∷ ("results", json_list (map serialize_health_check report.checks))
        ∷ [])
