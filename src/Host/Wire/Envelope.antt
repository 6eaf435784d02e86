-- ===== src/Host/Wire/Envelope.antt =====
-- crates/meepo-host/src/protocol/envelope.rs: requests, responses, and the choice of a frame's type by
-- its `kind`. `Json` stands for what the router reads of a `serde_json::Value` and for
-- `serde_json::from_value` at each type.
use meepo.Prelude.{◌>>=◌}
use meepo.Prelude.{
  String, Bool, true, false, not, ◌||◌, Option, none, some, if◌then◌else◌, Result, ok, err, ◌==◌,
}
use meepo.Prelude.{is_some}
use meepo.Prelude.Words.{starts_with}
use meepo.Host.Wire.Errors.{ProtocolError, invalid_frame, invalid_json, OperationError}
use meepo.Host.Handshake.Frames.{
  HelloFrame, HandshakeKind, AcceptedFrame, IncompatibleFrame, DrainingFrame,
}

pub record RequestFrame (V : Type 0) : Type 0 where
  pub request_id : String
  pub operation : String
  pub input : V

-- `succeeded` is the field `ok`.
pub record ResponseFrame (V : Type 0) : Type 0 where
  pub request_id : String
  pub operation : String
  pub succeeded : Bool
  pub result : Option V
  pub error : Option OperationError

-- `get k` is the member as a text, `has k` whether the member is there.
pub record Json (V : Type 0) : Type 0 where
  pub is_object : V → Bool
  pub get : V → String → Option String
  pub has : V → String → Bool
  pub to_hello : V → Result HelloFrame String
  pub to_request : V → Result (RequestFrame V) String
  pub to_accepted : V → Result AcceptedFrame String
  pub to_incompatible : V → Result IncompatibleFrame String
  pub to_draining : V → Result DrainingFrame String
  pub to_response : V → Result (ResponseFrame V) String

pub data ClientFrame (V : Type 0) : Type 0 where
  hello : HelloFrame → ClientFrame V
  request : RequestFrame V → ClientFrame V

pub data HostFrame (V : Type 0) : Type 0 where
  accepted : AcceptedFrame → HostFrame V
  incompatible : IncompatibleFrame → HostFrame V
  draining : DrainingFrame → HostFrame V
  response : ResponseFrame V → HostFrame V
  subscription config_changed catalog_changed : V → HostFrame V

abbrev from_value : {T : Type 0} → Result T String → Result T ProtocolError
from_value (ok t) = ok t
from_value (err e) = err (invalid_json e)

abbrev is_hello : HandshakeKind → Bool
is_hello HandshakeKind.hello = true
is_hello k = false

module _ {V : Type 0} where
  -- `ResponseFrame::ok`
  abbrev pub ok_response : String → String → V → ResponseFrame V
  ok_response rid op result = record {
    request_id = rid;
    operation = op;
    succeeded = true;
    result = some result;
    error = none;
  }

  -- `ResponseFrame::err`
  abbrev pub err_response : String → String → OperationError → ResponseFrame V
  err_response rid op e = record {
    request_id = rid;
    operation = op;
    succeeded = false;
    result = none;
    error = some e;
  }

  unfoldable validate : ResponseFrame V → Result (Unit {0}) ProtocolError
  validate r =
      if r.succeeded
      then (if is_some r.error then err invalid_frame else ok tt)
      else (if not (is_some r.error) || is_some r.result then err invalid_frame else ok tt)

  module _ (json : Json V) where
    abbrev kind_of : V → Option String
    kind_of v = json.get v "kind"

    abbrev client_frame : V → Option String → Result (ClientFrame V) ProtocolError
    client_frame v (some k) =
        if k == "hello"
        then (from_value (json.to_hello v) >>= λ f.
            if is_hello f.kind then ok (hello f) else err invalid_frame)
        else err invalid_frame
    client_frame v none =
        if json.has v "requestId"
        then (from_value (json.to_request v) >>= λ f. ok (request f))
        else err invalid_frame

    unfoldable pub decode_client_frame : V → Result (ClientFrame V) ProtocolError
    decode_client_frame v =
        if json.is_object v then client_frame v (kind_of v) else err invalid_frame

    abbrev host_frame : V → Option String → Result (HostFrame V) ProtocolError
    host_frame v (some k) =
        if k == "accepted"
        then (from_value (json.to_accepted v) >>= λ f. ok (accepted f))
        else if k == "incompatible"
        then (from_value (json.to_incompatible v) >>= λ f. ok (incompatible f))
        else if k == "draining"
        then (from_value (json.to_draining v) >>= λ f. ok (draining f))
        else if starts_with k "subscription."
        then ok (subscription v)
        else if k == "configuration.changed"
        then ok (config_changed v)
        else if k == "session.catalog.changed"
        then ok (catalog_changed v)
        else err invalid_frame
    host_frame v none =
        if json.has v "requestId"
        then (from_value (json.to_response v) >>= λ f. validate f >>= λ u. ok (response f))
        else err invalid_frame

    unfoldable decode_host_frame : V → Result (HostFrame V) ProtocolError
    unfolding starts_with validate
    decode_host_frame v = if json.is_object v then host_frame v (kind_of v) else err invalid_frame
