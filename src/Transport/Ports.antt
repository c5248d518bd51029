-- ===== src/Transport/Ports.antt =====
-- backend/src/adapters/transport/handlers/ports.py: `CatalogIngestionPort.start_reindex`. The other
-- methods of both ports hand their arguments on.
use linux_rag_t.Reindex.Run.{run}
use linux_rag_t.Prelude.{
  ◌&&◌, if◌then◌else◌, ℕ, ◌++◌, ◌<>◌, ok, err, true, [], ◌∷◌, Bool, List, Result, String,
}
use linux_rag_t.Ports.Ingestion.{IngestionJob, IngestionTrigger, SourceCatalog}
use linux_rag_t.Reindex.State.{Event, Service, start_job}

-- A call of one of the caller's callbacks.
pub data Callback : Type 0 where
  on_progress : IngestionJob → Callback
  on_complete : IngestionJob → Callback

abbrev pub call_of : Event → List Callback
call_of (Event.progress j) = on_progress j ∷ []
call_of (Event.completed j) = on_complete j ∷ []
call_of _ = []

-- What a run tells its caller, in order.
unfoldable pub calls_of : List Event → List Callback
calls_of [] = []
calls_of (e ∷ l) = call_of e ++ calls_of l

-- The service that runs the job, with whether it is there and whether an event loop is running.
pub record ReindexPort : Type 0 where
  pub load : Result SourceCatalog
  pub now : ℕ
  pub uuid : String
  pub has_service : Bool
  pub loop_running : Bool
  pub service : Service

abbrev pub with_callbacks : Service → Service
with_callbacks c = record c { on_progress = true; on_complete = true }

abbrev pub scheduled_calls : ReindexPort → IngestionTrigger → String → Bool → List Callback
scheduled_calls p trigger job_id force =
    if p.has_service && p.loop_running
    then calls_of (run (with_callbacks p.service) trigger job_id force).1
    else []

-- The job, and the calls of both callbacks, those of the run in the executor included.
abbrev pub start_on :
    ReindexPort
    → IngestionTrigger
    → Bool
    → Result SourceCatalog
    → Result (IngestionJob × List Callback)
start_on p trigger force (err e) = err e
start_on p trigger force (ok catalog) =
    let job_id = "reindex-" <> p.uuid in
    let job = start_job p.now trigger job_id in
    ok (job, on_progress job ∷ scheduled_calls p trigger job_id force)

unfoldable pub start_reindex :
    ReindexPort → IngestionTrigger → Bool → Result (IngestionJob × List Callback)
unfolding calls_of
start_reindex p trigger force = start_on p trigger force p.load
