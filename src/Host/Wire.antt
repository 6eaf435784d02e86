-- ===== src/Host/Wire.antt =====
-- crates/meepo-host/src/protocol: the frames between a client and the host, their codec, and the error
-- codes that a response carries. `V` is `serde_json::Value`, seen through the interface `Json`.
pub mod Errors
pub mod Codec
pub mod Envelope
