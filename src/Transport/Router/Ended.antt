-- ===== src/Transport/Router/Ended.antt =====
-- The response stream of a reindex request, from the calls of the run to its last payload.
use linux_rag_t.Transport.Router.{
  HealthEntry, Routed, streaming, dispatch, Handlers, force_of, ingestion_trigger,
}
use linux_rag_t.Json.{lookup, Dict, or_json, Json, Codec, boolean, object, text}
use linux_rag_t.Prelude.{
  ◌<>◌, some, ok, err, false, Option, Result, ℕ, ◌++◌, true, [], ◌∷◌, All, Bool, List, ◌≡◌,
}
use linux_rag_t.Reindex.State.{start_job, Event}
use linux_rag_t.Ports.Ingestion.{IngestionTrigger, SourceCatalog, IngestionJob}
use linux_rag_t.Reindex.Told.{Closes}
use linux_rag_t.Transport.Ports.{
  ReindexPort, scheduled_calls, start_reindex, with_callbacks, Callback, on_progress,
}
use linux_rag_t.Transport.Stream.{yielding, iterate, job_payload, queue_of}
use linux_rag_t.Reindex.Run.{run}
use linux_rag_t.Transport.Server.{stream_status}
use linux_rag_t.Transport.Router.Contents.{content_of}

abbrev pub prepend : List Json → List Json × Bool → List Json × Bool
prepend [] s = s
prepend (p ∷ l) s = yielding p (prepend l s)

-- 200 for a run that returns, 500 for one that raises.
abbrev pub result_code : Result IngestionJob → ℕ
result_code (ok j) = 200
result_code (err e) = 500

module _ (c : Codec) where
  abbrev pub status_of : Json → ℕ
  status_of p = stream_status (content_of c p)

  abbrev pub IsGoing : Json → Type 0
  IsGoing p = status_of p ≡ 202

  -- The payloads that the calls for some events put in front of the rest of the stream.
  record Going (calls rest : List Callback) : Type 0 where
    pub payloads : List Json
    pub going : All IsGoing payloads
    pub front : iterate (queue_of c (calls ++ rest)) ≡ prepend payloads (iterate (queue_of c rest))

  -- A stream that ends: going payloads, and a last one with the given status.
  pub record Ends (s : List Json × Bool) (code : ℕ) : Type 0 where
    pub before : List Json
    pub last : Json
    pub all : s ≡ (before ++ last ∷ [], true)
    pub going : All IsGoing before
    pub code_last : status_of last ≡ code

abbrev pub with_port : Handlers → ReindexPort → Handlers
with_port h p = record h { start_reindex = start_reindex p; loop_running = p.loop_running }

abbrev pub scheduled_run : ReindexPort → IngestionTrigger → Bool → Result IngestionJob × List Event
scheduled_run p trigger force = run (with_callbacks p.service) trigger ("reindex-" <> p.uuid) force

abbrev pub first_job : ReindexPort → IngestionTrigger → IngestionJob
first_job p trigger = start_job p.now trigger ("reindex-" <> p.uuid)

-- What the body of a request asks for.
abbrev pub asked_force : Dict → Bool
asked_force body = force_of (or_json (lookup "force" body) (boolean false))

abbrev pub asked_trigger : Dict → Option IngestionTrigger
asked_trigger body = ingestion_trigger (or_json (lookup "trigger" body) (text "manual"))

module _ (h : Handlers) (p : ReindexPort) (body : Dict) (trigger : IngestionTrigger)
    (catalog : SourceCatalog) (loaded : p.load ≡ ok catalog)
    (asked : asked_trigger body ≡ some trigger) where
  abbrev job_calls : List Callback
  job_calls =
      on_progress (first_job p trigger)
      ∷ scheduled_calls p trigger ("reindex-" <> p.uuid) (asked_force body)

  abbrev asked_dispatch : Routed × List HealthEntry
  asked_dispatch = dispatch (with_port h p) "/v1/index/reindex" (object body)

  abbrev job_stream : Routed
  job_stream =
      streaming 202 (job_payload h.codec (first_job p trigger))
        (iterate (queue_of h.codec job_calls))
