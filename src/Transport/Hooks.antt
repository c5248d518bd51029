-- ===== src/Transport/Hooks.antt =====
-- `register_shutdown_hook` and `close` of `TransportHandlers` in
-- backend/src/adapters/transport/handlers/router.py. A hook is its name and what it raises, if
-- anything; a call of it is logged and has no other effect here.
use linux_rag_t.Prelude.{
  ◌∙◌, ap, if◌then◌else◌, ◌++◌, refl, none, some, true, false, [], ◌∷◌, Bool, Error, List, Option,
  String, ◌≡◌,
}
use mathlib.Core.List.{append-nil}

pub record Hook : Type 0 where
  pub name : String
  pub raises : Option Error

pub record Closing : Type 0 where
  pub hooks : List Hook
  pub closed : Bool

abbrev pub open_handlers : Closing
open_handlers = record { hooks = []; closed = false }

unfoldable pub register_shutdown_hook : Option Hook → Closing → Closing
register_shutdown_hook none s = s
register_shutdown_hook (some hook) s = record s { hooks = s.hooks ++ hook ∷ [] }

-- The hooks that are called, in order. What one raises is logged, and the next is called.
unfoldable pub close : Closing → List Hook × Closing
close s = if s.closed then ([], s) else (s.hooks, record s { closed = true })

pub data Use : Type 0 where
  registers : Option Hook → Use
  closes : Use

-- The hooks called in a sequence of uses.
unfoldable pub called : List Use → Closing → List Hook
unfolding register_shutdown_hook close
called [] s = []
called (registers hook ∷ l) s = called l (register_shutdown_hook hook s)
called (closes ∷ l) s = (close s).0 ++ called l (close s).1

-- The hooks registered before the first closing, or none where there is no closing.
abbrev pub before_close : List Hook → List Use → List Hook
before_close hooks [] = []
before_close hooks (registers none ∷ l) = before_close hooks l
before_close hooks (registers (some hook) ∷ l) = before_close (hooks ++ hook ∷ []) l
before_close hooks (closes ∷ l) = hooks

called_closed :
    (l : List Use) (hooks : List Hook) → called l (record { hooks = hooks; closed = true }) ≡ []
unfolding called
called_closed [] hooks = refl
called_closed (registers none ∷ l) hooks = called_closed l hooks
called_closed (registers (some hook) ∷ l) hooks = called_closed l (hooks ++ hook ∷ [])
called_closed (closes ∷ l) hooks = called_closed l hooks

called_open :
    (l : List Use) (hooks : List Hook)
    → called l (record { hooks = hooks; closed = false }) ≡ before_close hooks l
unfolding called
called_open [] hooks = refl
called_open (registers none ∷ l) hooks = called_open l hooks
called_open (registers (some hook) ∷ l) hooks = called_open l (hooks ++ hook ∷ [])
called_open (closes ∷ l) hooks = ap (λ x. hooks ++ x) (called_closed l hooks) ∙ append-nil hooks

-- However hooks are registered and the handlers closed, each hook registered before the first
-- closing is called once, in order, whatever the hooks raise, and no other hook is called.
pub called_once : (l : List Use) → called l open_handlers ≡ before_close [] l
called_once l = called_open l []
