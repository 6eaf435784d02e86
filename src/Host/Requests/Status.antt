-- ===== src/Host/Requests/Status.antt =====
-- crates/meepo-host/src/handlers/host.rs: the operations that tell the epoch and the lifecycle of the
-- host. `to_value` is the JSON of what they answer.
use meepo.Prelude.{String, List}
use meepo.Host.Handshake.Frames.{LifecycleState}
use meepo.Host.Connection.{Outcome, outcome_ok, Handler, register}

record HostStatusOutput : Type 0 where
  host_epoch : String
  state : LifecycleState

module _ {V : Type 0} (to_value : HostStatusOutput → V) where
  unfoldable status_outcome : String → LifecycleState → Outcome V
  status_outcome host_epoch state =
      outcome_ok (to_value (record { host_epoch = host_epoch; state = state }))

  abbrev host_status : {W : Type 0} → Handler V W
  host_status input ctx w = (w, status_outcome ctx.host_epoch ctx.lifecycle)

  unfoldable register_status :
      {W : Type 0} → List (String × Handler V W) → List (String × Handler V W)
  unfolding register status_outcome
  register_status hs =
      register (register hs "host.status" host_status) "host.diagnostics.query" host_status
