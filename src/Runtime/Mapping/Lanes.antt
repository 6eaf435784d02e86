-- ===== src/Runtime/Mapping/Lanes.antt =====
-- The mapping against the two readers of its events: the lanes of the ledger scan, and the test for
-- a terminal event.
use meepo.Prelude.{String, ◌≡◌, refl, Bool, true, false}
use meepo.Core.Event.{is_terminal}
use meepo.Core.SessionEvent.{SessionEvent}
use meepo.Core.Store.{is_terminal_event}
use meepo.Ledger.{ToolLedgerLane, classify_lane}
use meepo.Runtime.Mapping.{InvocationContext, map_session_event, base}

module _ {V : Type 0} where
  -- The lane on which an event of the backend belongs.
  abbrev pub expected_lane : SessionEvent V → ToolLedgerLane
  expected_lane (SessionEvent.tool_call i t ts c n a) = ToolLedgerLane.function_call
  expected_lane (SessionEvent.tool_dispatch i t ts o c n h m) = ToolLedgerLane.tool_dispatch
  expected_lane (SessionEvent.tool_result i t ts c n x e) = ToolLedgerLane.function_response
  expected_lane _ = ToolLedgerLane.ordinary

  abbrev pub ends_turn : SessionEvent V → Bool
  ends_turn (SessionEvent.complete i t ts r) = true
  ends_turn (SessionEvent.error i t ts b m c r d) = true
  ends_turn (SessionEvent.abort i t ts r) = true
  ends_turn _ = false

module _ {V : Type 0} (string_value : String → V) where
  -- Every backend event is read on its own lane by the scan: a call, a dispatch and a result on
  -- theirs, and all else as ordinary. None is read as a recovery fact.
  pub classify_lane-map_session_event :
      (e : SessionEvent V) (ctx : InvocationContext)
      → classify_lane (map_session_event string_value e ctx) ≡ expected_lane e
  unfolding classify_lane map_session_event
  classify_lane-map_session_event (SessionEvent.tool_call i t ts c n a) ctx = refl
  classify_lane-map_session_event _ ctx = refl

  -- An event is canonical-terminal exactly when it ends the turn: complete, error or abort.
  pub terminal-map_session_event :
      (e : SessionEvent V) (ctx : InvocationContext)
      → is_terminal_event (map_session_event string_value e ctx) ≡ ends_turn e
  unfolding map_session_event is_terminal
  terminal-map_session_event (SessionEvent.tool_call i t ts c n a) ctx = refl
  terminal-map_session_event _ ctx = refl

  -- The identity: session, run and invocation come from the context; the id, the turn and the
  -- timestamp from the event, whatever turn the context names.
  identity-map_session_event :
      (e : SessionEvent V) (ctx : InvocationContext)
      → let r = map_session_event string_value e ctx in
        (r.session_id ≡ ctx.session_id)
        × (r.run_id ≡ ctx.run_id)
        × (r.invocation_id ≡ ctx.invocation_id)
        × ((r.id, r.turn_id, r.ts) ≡ base e)
  unfolding map_session_event
  identity-map_session_event (SessionEvent.tool_call i t ts c n a) ctx = (refl, refl, refl, refl)
  identity-map_session_event _ ctx = (refl, refl, refl, refl)
