-- ===== src/Host/Handshake/Frames.antt =====
-- crates/meepo-host/src/protocol/handshake.rs: the frames of the handshake.
use meepo.Prelude.{ℕ, String}

pub data HandshakeSurface : Type 0 where
  desktop tui run activation bot inspect : HandshakeSurface

pub data HandshakeKind : Type 0 where
  hello accepted incompatible draining : HandshakeKind

pub data LifecycleState : Type 0 where
  starting recovering ready draining : LifecycleState

pub data ReplacementPolicy : Type 0 where
  blocked_by_residency wait_for_idle_exit : ReplacementPolicy

pub record HelloFrame : Type 0 where
  pub kind : HandshakeKind
  pub client_instance_id : String
  pub surface : HandshakeSurface
  pub protocol_min : ℕ
  pub protocol_max : ℕ
  pub compatibility_epoch : ℕ

pub record AcceptedFrame : Type 0 where
  pub kind : HandshakeKind
  pub host_epoch : String
  pub connection_id : String
  pub selected_protocol : ℕ
  pub compatibility_epoch : ℕ
  pub state : LifecycleState

-- `AcceptedFrame::new`
abbrev pub accepted_frame : String → String → ℕ → ℕ → LifecycleState → AcceptedFrame
accepted_frame host_epoch connection_id selected_protocol compatibility_epoch state = record {
  kind = HandshakeKind.accepted;
  host_epoch = host_epoch;
  connection_id = connection_id;
  selected_protocol = selected_protocol;
  compatibility_epoch = compatibility_epoch;
  state = state;
}

pub record IncompatibleFrame : Type 0 where
  pub kind : HandshakeKind
  pub host_epoch : String
  pub protocol_min : ℕ
  pub protocol_max : ℕ
  pub compatibility_epoch : ℕ
  pub state : LifecycleState
  pub replacement : ReplacementPolicy

pub record DrainingFrame : Type 0 where
  pub kind : HandshakeKind
  pub host_epoch : String

-- `DrainingFrame::new`
abbrev pub draining_frame : String → DrainingFrame
draining_frame host_epoch = record { kind = HandshakeKind.draining; host_epoch = host_epoch }
