-- ===== src/Offline.antt =====
-- backend/src/application/offline_guard.py: the guard that replaces `socket.create_connection`. Each
-- entry and exit holds the lock for its whole change of state, so threads interleave as sequences of
-- these steps.
pub mod Guarded
use linux_rag_t.Prelude.{
  ◌||◌, ◌==◌, nonempty, ◌+◌, eqb, not, ◌<>◌, if◌then◌else◌, lower, strip, ℕ, ◌-◌, none, some, true,
  false, Bool, Option, String, ◌≡◌,
}

-- What `socket.create_connection` is bound to.
pub data Connector : Type 0 where
  original : Connector
  guarded : Connector

pub record State : Type 0 where
  pub create_connection : Connector
  pub install_count : ℕ
  pub saved : Option Connector

abbrev pub initial : State
initial = record { create_connection = original; install_count = 0; saved = none }

unfoldable pub enter : State → State
enter s =
    if eqb s.install_count 0
    then record {
      create_connection = guarded;
      install_count = s.install_count + 1;
      saved = some s.create_connection;
    }
    else record s { install_count = s.install_count + 1 }

abbrev restore : Option Connector → State → State
restore none s = s
restore (some c) s = record s { create_connection = c; saved = none }

unfoldable pub leave : State → State
leave s =
    let t = record s { install_count = s.install_count - 1 } in
    if eqb t.install_count 0 then restore t.saved t else t

-- The first component of an address, or the address itself: a text, ASCII bytes, or something else.
pub data Host : Type 0 where
  text_host : String → Host
  byte_host : String → Host
  other_host : Host

abbrev pub extract_host : Host → Option String
extract_host (text_host s) = some (strip s)
extract_host (byte_host s) = some s
extract_host other_host = none

-- `ip_loopback` is `ipaddress.ip_address(host).is_loopback`, and `none` where that is no address.
unfoldable pub is_remote_host : (String → Option Bool) → String → Bool
is_remote_host ip_loopback host =
    let lowered = lower host in
    if not (nonempty host)
    then false
    else if lowered == "localhost" || lowered == "127.0.0.1" || lowered == "::1"
    then false
    else elim (ip_loopback host) [ none ↦ true | some loopback ↦ not loopback ]

-- What a call of `socket.create_connection` comes to.
pub data Call : Type 0 where
  connected : Call
  offline_error : String → Call
  missing_original : Call

abbrev pub call_original : State → Call
call_original s = elim s.saved [ none ↦ missing_original | some c ↦ connected ]

abbrev pub guarded_call : (String → Option Bool) → State → Option String → Call
guarded_call ip_loopback s none = call_original s
guarded_call ip_loopback s (some host) =
    if is_remote_host ip_loopback host
    then offline_error ("outbound network access blocked for host " <> host)
    else call_original s

unfoldable pub connect : (String → Option Bool) → State → Host → Call
unfolding is_remote_host
connect ip_loopback s address = elim s.create_connection [
  | original ↦ connected
  | guarded ↦ guarded_call ip_loopback s (extract_host address)
]
