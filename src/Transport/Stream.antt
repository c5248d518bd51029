-- ===== src/Transport/Stream.antt =====
-- `_JobStream` of backend/src/adapters/transport/handlers/router.py: the queue that the callbacks of a
-- reindex run fill and the response stream empties. `call_soon_threadsafe` keeps the order of its calls.
use linux_rag_t.Transport.Ports.{Callback, on_complete, on_progress}
use linux_rag_t.Prelude.{◌++◌, none, some, true, false, [], ◌∷◌, Bool, List, Option}
use linux_rag_t.Json.{Json, Codec, json_dict}
use linux_rag_t.Ports.Ingestion.{IngestionJob}
use linux_rag_t.Transport.Serialize.{serialize_ingestion_job}

module _ (c : Codec) where
  abbrev pub job_payload : IngestionJob → Json
  job_payload job = json_dict (("job", serialize_ingestion_job c job) ∷ [])

  -- What a callback puts into the queue; `none` is the sentinel.
  unfoldable pub enqueue : Callback → List (Option Json)
  enqueue (on_progress job) = some (job_payload job) ∷ []
  enqueue (on_complete job) = some (job_payload job) ∷ none ∷ []

  unfoldable pub queue_of : List Callback → List (Option Json)
  unfolding enqueue
  queue_of [] = []
  queue_of (e ∷ l) = enqueue e ++ queue_of l

abbrev pub yielding : Json → List Json × Bool → List Json × Bool
yielding payload (l, ended) = (payload ∷ l, ended)

-- What `async for` gets from the queue, and whether the iteration ends. On an empty queue it waits.
unfoldable pub iterate : List (Option Json) → List Json × Bool
iterate [] = ([], false)
iterate (none ∷ l) = ([], true)
iterate (some payload ∷ l) = yielding payload (iterate l)
