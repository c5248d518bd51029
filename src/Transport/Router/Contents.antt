-- ===== src/Transport/Router/Contents.antt =====
-- The payloads of the router as the server looks at them (`_stream_status` of
-- backend/src/adapters/transport/server.py).
use linux_rag_t.Ports.Ingestion.{
  queued, running, succeeded, cancelled, IngestionJob, IngestionStatus,
}
use linux_rag_t.Json.{lookup, Json, Codec, object}
use linux_rag_t.Prelude.{lower, ℕ, refl, none, some, Option, String, ◌≡◌}
use linux_rag_t.Transport.Serialize.{ingestion_status_value, serialize_ingestion_job}
use linux_rag_t.Transport.Stream.{job_payload}
use linux_rag_t.Transport.Router.{text_of}
use linux_rag_t.Transport.Server.{Content, stream_status}

-- `str(job.get("status", ""))`
abbrev pub status_text : Codec → Option Json → String
status_text c none = ""
status_text c (some j) = text_of c j

abbrev pub job_status : Codec → Option Json → Option String
job_status c (some (object job)) = some (status_text c (lookup "status" job))
job_status c _ = none

abbrev pub content_of : Codec → Json → Content
content_of c (object p) = record {
  json = c.dumps (object p);
  job_status = job_status c (lookup "job" p);
}
content_of c j = record { json = c.dumps j; job_status = none }

abbrev pub status_code : IngestionStatus → ℕ
status_code succeeded = 200
status_code IngestionStatus.failed = 500
status_code _ = 202

status_code_of :
    (json : String) (s : IngestionStatus)
    → stream_status (record { json = json; job_status = some (ingestion_status_value s) })
      ≡ status_code s
unfolding stream_status lower
status_code_of json queued = refl
status_code_of json running = refl
status_code_of json succeeded = refl
status_code_of json IngestionStatus.failed = refl
status_code_of json cancelled = refl

-- The status of a streamed response is that of the job in it.
pub stream_status-job_payload :
    (c : Codec) (j : IngestionJob)
    → stream_status (content_of c (job_payload c j)) ≡ status_code j.status
unfolding serialize_ingestion_job
stream_status-job_payload c j = status_code_of (c.dumps (job_payload c j)) j.status
