-- ===== src/Transport/Server.antt =====
-- backend/src/adapters/transport/server.py: one connection, as a function from what the reads give to
-- the frames sent. The trace sections are left out, and a write does not raise.
pub mod Replies
pub mod Handshake
use linux_rag_t.Prelude.{
  ◌&&◌, lower, nonempty, ◌<>◌, eqb, if◌then◌else◌, not, ℕ, ◌++◌, ◌==◌, none, some, true, false, [],
  ◌∷◌, Bool, List, Option, String, or_text, ◌≡◌,
}
use linux_rag_t.Prelude.Int.{ℤ, pos}
use linux_rag_t.Transport.Errors.{TransportError}

-- A JSON value as the server looks at it: an array or object is empty or stands for its text. A
-- number is an integer.
pub data Value : Type 0 where
  null : Value
  boolean : Bool → Value
  number : ℤ → Value
  text : String → Value
  compound : String → Value
  empty_compound : Value

-- A frame by what `get` gives for each key that the server reads, `null` where it is missing.
pub record Frame : Type 0 where
  pub type : Value
  pub protocol : Value
  pub version : Value
  pub path : Value
  pub correlation_id : Value
  pub body : Value

-- What `_read_frame` gives or raises: the end of the stream, a `TransportProtocolError` with its
-- text, another exception, a JSON value that is no mapping, or a mapping.
pub data Read : Type 0 where
  closed : Read
  invalid : String → Read
  raised : Read
  not_mapping : Read
  mapping : Frame → Read

-- A serialized payload, with the status of its `job` where it has a mapping there.
pub record Content : Type 0 where
  pub json : String
  pub job_status : Option String

pub data Body : Type 0 where
  problem : String → String → Body
  transport_problem : TransportError → Body
  content : Content → Body

pub record Response : Type 0 where
  pub status : ℕ
  pub correlation_id : String
  pub body : Body

pub data Sent : Type 0 where
  handshake_ack : Sent
  response : Response → Sent

-- What a stream does behind its payloads: it ends, raises, or gives nothing for ever.
pub data StreamEnd : Type 0 where
  ended broken stuck : StreamEnd

-- What `handlers.dispatch` returns or raises.
pub data Dispatched : Type 0 where
  replied : ℕ → Content → Dispatched
  streaming : ℕ → Content → List Content → StreamEnd → Dispatched
  refused : TransportError → Dispatched
  crashed : Dispatched

-- The handlers, the identifier of the connection, and Python's `repr`.
pub record Server : Type 0 where
  pub dispatch : String → Value → Dispatched
  pub connection_id : String
  pub repr : Value → String

pub data End : Type 0 where
  waiting returned failed : End

-- The frames sent, how the handler ended, and whether it closed the writer.
pub record Connection : Type 0 where
  pub sent : List Sent
  pub end : End
  pub writer_closed : Bool

abbrev pub is_text : String → Value → Bool
is_text s (text t) = t == s
is_text s _ = false

-- Python's `value == 1`
abbrev pub is_one : Value → Bool
is_one (number (pos n)) = eqb n 1
is_one (boolean b) = b
is_one _ = false

unfoldable pub normalize_correlation_id : Value → String → String
normalize_correlation_id (text s) fallback = or_text s fallback
normalize_correlation_id _ fallback = fallback

-- `frame.get("body") or {}`
abbrev pub or_mapping : Value → Value
or_mapping null = empty_compound
or_mapping (boolean b) = if b then boolean b else empty_compound
or_mapping (number (pos n)) = if eqb n 0 then empty_compound else number (pos n)
or_mapping (number n) = number n
or_mapping (text s) = if nonempty s then text s else empty_compound
or_mapping (compound s) = compound s
or_mapping empty_compound = empty_compound

unfoldable pub stream_status : Content → ℕ
stream_status p = elim p.job_status [
  | none ↦ 202
  | some status ↦
      if lower status == "succeeded" then 200 else if lower status == "failed" then 500 else 202
]

abbrev pub send_error : ℕ → String → String → String → Sent
send_error status correlation_id code message =
    response
      (record { status = status; correlation_id = correlation_id; body = problem code message })

abbrev pub send_payload : ℕ → String → Content → Sent
send_payload status correlation_id p =
    response (record { status = status; correlation_id = correlation_id; body = content p })

unfoldable pub stream_responses : String → List Content → List Sent
unfolding stream_status
stream_responses correlation_id [] = []
stream_responses correlation_id (p ∷ l) =
    send_payload (stream_status p) correlation_id p ∷ stream_responses correlation_id l

module _ (c : Server) where
  -- What `_handshake_response` raises.
  unfoldable pub handshake_error : Frame → Option String
  handshake_error f =
      if not (is_text "handshake" f.type)
      then some "First frame must be a handshake request"
      else if not (is_text "rag-cli-ipc" f.protocol)
      then some ("Unsupported protocol: " <> c.repr f.protocol)
      else if not (is_one f.version)
      then some ("Unsupported protocol version: " <> c.repr f.version)
      else none

  -- The response to a stream that raises, once it was begun.
  abbrev pub stream_error : String → StreamEnd → List Sent
  stream_error correlation broken =
      send_error 500 correlation "INTERNAL_ERROR" "Internal server error" ∷ []
  stream_error correlation _ = []

  abbrev pub answer_dispatched : String → Dispatched → List Sent
  answer_dispatched correlation (replied status p) = send_payload status correlation p ∷ []
  answer_dispatched correlation (streaming status p l end) =
      send_payload status correlation p
      ∷ (stream_responses correlation l ++ stream_error correlation end)
  answer_dispatched correlation (refused e) =
      response
        (record { status = e.status; correlation_id = correlation; body = transport_problem e })
      ∷ []
  answer_dispatched correlation crashed =
      send_error 500 correlation "INTERNAL_ERROR" "Internal server error" ∷ []

  abbrev pub requested_path : Value → String
  requested_path (text s) = s
  requested_path _ = ""

  -- An iteration of the loop for a frame that was read.
  unfoldable pub answer : Frame → List Sent
  unfolding stream_responses normalize_correlation_id
  answer f =
      let correlation = normalize_correlation_id f.correlation_id c.connection_id in
      if not (is_text "request" f.type)
      then send_error 400 correlation "INVALID_FRAME_TYPE"
          ("Expected frame type 'request', got " <> c.repr f.type)
        ∷ []
      else if not (nonempty (requested_path f.path))
      then send_error 400 correlation "INVALID_PATH" "Request path must be a non-empty string" ∷ []
      else answer_dispatched correlation (c.dispatch (requested_path f.path) (or_mapping f.body))

  abbrev pub is_stuck : Dispatched → Bool
  is_stuck (streaming status p l stuck) = true
  is_stuck _ = false

  -- The frame asks for a stream that never ends, so that the loop reads no other frame.
  unfoldable pub waits_on : Frame → Bool
  waits_on f =
      is_text "request" f.type
      && nonempty (requested_path f.path)
      && is_stuck (c.dispatch (requested_path f.path) (or_mapping f.body))

  abbrev after : List Sent → List Sent × End → List Sent × End
  after sent (rest, end) = (sent ++ rest, end)

  -- The request loop. Only protocol errors are caught around a read.
  unfoldable pub serve : List Read → List Sent × End
  unfolding answer waits_on
  serve [] = ([], waiting)
  serve (closed ∷ l) = ([], returned)
  serve (raised ∷ l) = ([], failed)
  serve (not_mapping ∷ l) = ([], failed)
  serve (invalid message ∷ l) =
      after (send_error 400 c.connection_id "INVALID_FRAME" message ∷ []) (serve l)
  serve (mapping f ∷ l) =
      let rest = serve l in if waits_on f then (answer f, waiting) else after (answer f) rest

  abbrev pub is_waiting : End → Bool
  is_waiting waiting = true
  is_waiting _ = false

  abbrev pub served : List Sent × End → Connection
  served (sent, end) = record {
    sent = handshake_ack ∷ sent;
    end = end;
    writer_closed = not (is_waiting end);
  }

  abbrev pub rejected : ℕ → String → String → String → Connection
  rejected status correlation_id code message = record {
    sent = send_error status correlation_id code message ∷ [];
    end = returned;
    writer_closed = false;
  }

  abbrev pub shake : Frame → Option String → List Read → Connection
  shake f none l = served (serve l)
  shake f (some message) l =
      rejected 400 (normalize_correlation_id f.correlation_id c.connection_id) "HANDSHAKE_ERROR"
        message

  unfoldable pub handle_connection : List Read → Connection
  unfolding handshake_error serve normalize_correlation_id
  handle_connection [] = record { sent = []; end = waiting; writer_closed = false }
  handle_connection (closed ∷ l) = record { sent = []; end = returned; writer_closed = false }
  handle_connection (invalid message ∷ l) = rejected 400 c.connection_id "HANDSHAKE_ERROR" message
  handle_connection (raised ∷ l) =
      rejected 500 c.connection_id "HANDSHAKE_FAILURE" "Handshake failed due to internal error"
  handle_connection (not_mapping ∷ l) =
      rejected 500 c.connection_id "HANDSHAKE_FAILURE" "Handshake failed due to internal error"
  handle_connection (mapping f ∷ l) = shake f (handshake_error f) l
