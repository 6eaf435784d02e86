-- ===== src/Host/Handshake.antt =====
-- crates/meepo-host/src/protocol/handshake.rs: the choice of the protocol version. Versions are u32.
pub mod Selection
pub mod Frames
use meepo.Prelude.{ℕ, min, max, leb, ltb, if◌then◌else◌, Result, ok, err, ◌>>=◌, ◌>>◌}

pub data HandshakeError : Type 0 where
  -- min, max
  invalid_range : ℕ → ℕ → HandshakeError
  no_overlap : HandshakeError

unfoldable pub validate_protocol_range : ℕ → ℕ → Result (Unit {0}) HandshakeError
validate_protocol_range lo hi = if ltb hi lo then err (invalid_range lo hi) else ok tt

unfoldable pub negotiate_protocol : ℕ → ℕ → ℕ → ℕ → Result ℕ HandshakeError
unfolding validate_protocol_range
negotiate_protocol client_min client_max host_min host_max = do
  validate_protocol_range client_min client_max
  validate_protocol_range host_min host_max
  let selected = min client_max host_max
  let floor = max client_min host_min
  if leb floor selected then ok selected else err no_overlap
