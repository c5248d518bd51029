-- ===== src/Tests/Server.antt =====
-- A connection with one query, one broken frame and a reindex stream.
use linux_rag_t.Transport.Server.Replies.{
  stops, replies, Echoes, answer-Echoes, handle_connection-replies,
}
use linux_rag_t.Transport.Server.{
  StreamEnd, waits_on, answer, Dispatched, Frame, Read, Sent, Server, Value, handle_connection,
  handshake_error, normalize_correlation_id, mapping, invalid, response, handshake_ack, replied,
  streaming, returned, null, text, number, closed,
}
use linux_rag_t.Prelude.{
  lower, map, ◌<◌, ◌==◌, ◌≤◌, if◌then◌else◌, length, ℕ, ◌++◌, refl, none, some, true, false, [],
  ◌∷◌, All, List, String, ◌≡◌,
}
use linux_rag_t.Transport.Server.Handshake.{accepted, IsRefusal, handshake_gate}
use linux_rag_t.Prelude.Int.{pos}

abbrev hello : Frame
hello = record {
  type = text "handshake";
  protocol = text "rag-cli-ipc";
  version = number (pos 1);
  path = null;
  correlation_id = text "h";
  body = null;
}

abbrev request : String → Frame
request path = record hello { type = text "request"; path = text path; correlation_id = text "r" }

abbrev answers : String → Value → Dispatched
answers path body =
    if path == "/v1/index/reindex"
    then streaming 202 (record { json = "job"; job_status = some "running" })
        (record { json = "end"; job_status = some "SUCCEEDED" } ∷ []) StreamEnd.ended
    else replied 200 (record { json = "{}"; job_status = none })

abbrev backend : Server
backend = record { dispatch = answers; connection_id = "c"; repr = λ v. "?" }

abbrev reads : List Read
reads =
    mapping (request "/v1/query")
    ∷ invalid "Invalid frame length prefix"
    ∷ mapping (request "/v1/index/reindex")
    ∷ []

-- The statuses and identifiers of the responses.
abbrev line : Sent → String × ℕ
line handshake_ack = ("", 0)
line (response r) = (r.correlation_id, r.status)

hello_ok : handshake_error backend hello ≡ none
unfolding handshake_error
hello_ok = refl

reads_answered :
    map line (replies backend reads) ≡ ("r", 200) ∷ ("c", 400) ∷ ("r", 202) ∷ ("r", 200) ∷ []
unfolding answer lower
reads_answered = refl

reads_go_on : All (λ r. stops backend r ≡ none) reads
unfolding waits_on
reads_go_on = (refl, (refl, (refl, tt)))

handle_connection-replies_example :
    handle_connection backend (mapping hello ∷ reads ++ closed ∷ []) ≡ record {
      sent = handshake_ack ∷ (replies backend reads ++ []);
      end = returned;
      writer_closed = true;
    }
handle_connection-replies_example =
    handle_connection-replies backend closed [] returned refl hello reads hello_ok reads_go_on

answer-Echoes_example :
    All (Echoes "r") (answer backend (request "/v1/query"))
    × (0 < length (answer backend (request "/v1/query")))
unfolding normalize_correlation_id
answer-Echoes_example = answer-Echoes backend (request "/v1/query")

late : accepted backend (mapping (request "/v1/query")) ≡ false
unfolding handshake_error
late = refl

handshake_gate_example :
    (handle_connection backend (mapping (request "/v1/query") ∷ reads)
      ≡ handle_connection
          (record backend { dispatch = λ path body. Dispatched.crashed })
          (mapping (request "/v1/query") ∷ []))
    × All IsRefusal (handle_connection backend (mapping (request "/v1/query") ∷ reads)).sent
    × (length (handle_connection backend (mapping (request "/v1/query") ∷ reads)).sent ≤ 1)
    × ((handle_connection backend (mapping (request "/v1/query") ∷ reads)).writer_closed ≡ false)
handshake_gate_example =
    handshake_gate backend (mapping (request "/v1/query")) reads []
      (λ path body. Dispatched.crashed) late
