-- ===== src/Transport/Server/Replies.antt =====
-- Every request is answered, in order, under its own identifier.
use linux_rag_t.Prelude.{
  sym, ap, if◌then◌else◌, not, some, Option, some-injective, nonempty, length, ◌++◌, ◌<◌, refl,
  none, inl, inr, [], arith, ◌∷◌, All, All-append, Bool-cases, List, String, ◌≡◌,
}
use linux_rag_t.Transport.Server.{
  is_waiting, ended, broken, stuck, waiting, failed, End, StreamEnd, stream_error, waits_on, answer,
  serve, Content, Dispatched, Frame, Read, Sent, Server, answer_dispatched, handle_connection,
  handshake_error, is_text, normalize_correlation_id, or_mapping, requested_path, send_error,
  stream_responses, mapping, invalid, raised, closed, not_mapping, response, handshake_ack, replied,
  streaming, refused, crashed, returned,
}
use mathlib.Core.List.{append_assoc}

-- How the loop stops at a read, if it does: at the end of the stream, at a read that raises another
-- exception or gives no mapping, and at a request for a stream that never ends.
abbrev pub stops : Server → Read → Option End
stops c (invalid message) = none
stops c (mapping f) = if waits_on c f then some waiting else none
stops c closed = some returned
stops c raised = some failed
stops c not_mapping = some failed

-- What a read is answered by.
abbrev pub reply : Server → Read → List Sent
reply c (invalid message) = send_error 400 c.connection_id "INVALID_FRAME" message ∷ []
reply c (mapping f) = answer c f
reply c closed = []
reply c raised = []
reply c not_mapping = []

abbrev pub replies : Server → List Read → List Sent
replies c [] = []
replies c (r ∷ l) = reply c r ++ replies c l

module _ (c : Server) (stop : Read) (later : List Read) (end : End)
    (at : stops c stop ≡ some end) where
  serve-stop : serve c (stop ∷ later) ≡ (reply c stop, end)
  unfolding serve
  serve-stop = stopped stop at
    where
      stopped : (r : Read) → stops c r ≡ some end → serve c (r ∷ later) ≡ (reply c r, end)
      stopped closed k = ap (λ x. ([], x)) (some-injective returned end k)
      stopped raised k = ap (λ x. ([], x)) (some-injective failed end k)
      stopped not_mapping k = ap (λ x. ([], x)) (some-injective failed end k)
      stopped (invalid m) k = cc
      stopped (mapping f) k = elim (Bool-cases (waits_on c f)) [
        | inl e ↦ rw e (ap (λ x. (answer c f, x)) (some-injective waiting end (rw e at k)))
        | inr e ↦ cc (rw e at k)
      ]

  serve-replies :
      (l : List Read)
      → All (λ r. stops c r ≡ none) l
      → serve c (l ++ stop ∷ later) ≡ (replies c l ++ reply c stop, end)
  unfolding serve
  serve-replies [] h = serve-stop
  serve-replies (mapping f ∷ l) h = elim (Bool-cases (waits_on c f)) [
    | inl e ↦ cc (rw e at h.0)
    | inr e ↦
        rw (e, serve-replies l h.1)
          (ap (λ x. (x, end)) (sym (append_assoc (answer c f) (replies c l) (reply c stop))))
  ]
  serve-replies (invalid m ∷ l) h = rw (serve-replies l h.1) refl
  serve-replies (closed ∷ l) h = cc (h.0)
  serve-replies (raised ∷ l) h = cc (h.0)
  serve-replies (not_mapping ∷ l) h = cc (h.0)

  -- After a valid handshake the reads are answered in turn up to the first at which the loop stops,
  -- also where frames that violate the protocol by their text stand between: at the end of the stream
  -- the handler returns, at another exception of a read or a value that is no mapping it fails, and
  -- then the writer is closed; at a request for a stream that never ends it gives the payloads of that
  -- stream and waits, and what follows is not read.
  pub handle_connection-replies :
      (f : Frame) (l : List Read)
      → handshake_error c f ≡ none
      → All (λ r. stops c r ≡ none) l
      → handle_connection c (mapping f ∷ l ++ stop ∷ later) ≡ record {
        sent = handshake_ack ∷ (replies c l ++ reply c stop);
        end = end;
        writer_closed = not (is_waiting c end);
      }
  unfolding handle_connection
  handle_connection-replies f l h a = rw (h, serve-replies l a) refl

-- A response with this identifier.
abbrev pub Echoes : String → Sent → Type 0
Echoes id handshake_ack = ⊥
Echoes id (response r) = r.correlation_id ≡ id

stream-Echoes : (id : String) (l : List Content) → All (Echoes id) (stream_responses id l)
unfolding stream_responses
stream-Echoes id [] = tt
stream-Echoes id (p ∷ l) = (refl, stream-Echoes id l)

error-Echoes :
    (c : Server) (id : String) (end : StreamEnd) → All (Echoes id) (stream_error c id end)
error-Echoes c id broken = (refl, tt)
error-Echoes c id ended = tt
error-Echoes c id stuck = tt

dispatched-Echoes :
    (c : Server) (id : String) (d : Dispatched)
    → All (Echoes id) (answer_dispatched c id d) × (0 < length (answer_dispatched c id d))
dispatched-Echoes c id (replied status p) = ((refl, tt), omega arith)
dispatched-Echoes c id (refused e) = ((refl, tt), omega arith)
dispatched-Echoes c id crashed = ((refl, tt), omega arith)
dispatched-Echoes c id (streaming status p l end) = (
  (
    refl,
    All-append (Echoes id) (stream_responses id l) _ (stream-Echoes id l) (error-Echoes c id end),
  ),
  omega arith,
)

-- Each frame of the loop gets at least one response, and all its responses, streamed ones and errors
-- included, carry its correlation id, or that of the connection if it has no text of its own there.
pub answer-Echoes :
    (c : Server) (f : Frame)
    → All (Echoes (normalize_correlation_id f.correlation_id c.connection_id)) (answer c f)
      × (0 < length (answer c f))
unfolding answer
answer-Echoes c f = elim (Bool-cases (is_text "request" f.type)) [
  | inr e ↦ rw e ((refl, tt), omega arith)
  | inl e ↦ elim (Bool-cases (nonempty (requested_path c f.path))) [
    | inr k ↦ rw (e, k) ((refl, tt), omega arith)
    | inl k ↦
        rw (e, k)
          (dispatched-Echoes c (normalize_correlation_id f.correlation_id c.connection_id)
            (c.dispatch (requested_path c f.path) (or_mapping f.body)))
  ]
]
