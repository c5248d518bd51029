-- ===== src/Transport/Server/Handshake.antt =====
-- Nothing is served before a valid handshake.
use linux_rag_t.Transport.Server.{
  shake, Frame, Dispatched, Read, Sent, Server, Value, handle_connection, handshake_error, mapping,
  invalid, raised, closed, not_mapping, response, handshake_ack,
}
use linux_rag_t.Prelude.{
  Option, ◌≤◌, length, ◌⊎◌, refl, none, some, inl, inr, true, false, arith, ◌∷◌, All, Bool, List,
  String, ◌≡◌,
}

abbrev pub accepted : Server → Read → Bool
accepted c (mapping f) = elim (handshake_error c f) [ none ↦ true | some m ↦ false ]
accepted c (invalid m) = false
accepted c raised = false
accepted c closed = false
accepted c not_mapping = false

-- An error response with one of the statuses of a failed handshake.
abbrev pub IsRefusal : Sent → Type 0
IsRefusal handshake_ack = ⊥
IsRefusal (response r) = (r.status ≡ 400) ⊎ (r.status ≡ 500)

shake_gate :
    (c : Server) (f : Frame) (later more : List Read) (dispatch : String → Value → Dispatched)
    (o : Option String)
    → elim o [ none ↦ true | some m ↦ false ] ≡ false
    → (shake c f o later ≡ shake (record c { dispatch = dispatch }) f o more)
      × All IsRefusal (shake c f o later).sent
      × (length (shake c f o later).sent ≤ 1)
      × ((shake c f o later).writer_closed ≡ false)
shake_gate c f later more dispatch none h = absurd (ground (arith, h))
shake_gate c f later more dispatch (some m) h = (refl, (inl refl, tt), omega arith, refl)

-- A first read that is no valid handshake ends the connection: whatever follows, and whatever the
-- handlers would do, the outcome is the same, with no acknowledgement and at most one response, of
-- status 400 or 500; the writer is not closed.
pub handshake_gate :
    (c : Server) (r : Read) (later more : List Read) (dispatch : String → Value → Dispatched)
    → accepted c r ≡ false
    → (handle_connection c (r ∷ later)
        ≡ handle_connection (record c { dispatch = dispatch }) (r ∷ more))
      × All IsRefusal (handle_connection c (r ∷ later)).sent
      × (length (handle_connection c (r ∷ later)).sent ≤ 1)
      × ((handle_connection c (r ∷ later)).writer_closed ≡ false)
unfolding handle_connection handshake_error
handshake_gate c closed later more dispatch h = (refl, tt, omega arith, refl)
handshake_gate c raised later more dispatch h = (refl, (inr refl, tt), omega arith, refl)
handshake_gate c not_mapping later more dispatch h = (refl, (inr refl, tt), omega arith, refl)
handshake_gate c (invalid m) later more dispatch h = (refl, (inl refl, tt), omega arith, refl)
handshake_gate c (mapping f) later more dispatch h =
    shake_gate c f later more dispatch (handshake_error c f) h
