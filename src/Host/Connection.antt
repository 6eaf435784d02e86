-- ===== src/Host/Connection.antt =====
-- crates/meepo-host/src/server/connection.rs and dispatcher.rs: the handshake of a connection and its
-- request loop. The client's side is the list of what the reads give; each read comes with whether the
-- response to it can be enqueued and with the id that a subscription would draw. `W` is the state
-- that the handlers share, `to_value` the JSON of a frame. The tasks that forward the frames of a
-- subscription to the connection are not modelled.
pub mod Answers
use meepo.Prelude.{◌>>=◌}
use meepo.Prelude.{
  ℕ, suc, ◌+◌, ◌≡◌, refl, sym, ap, subst, ◌∙◌, String, Bool, true, false, not, ◌||◌, ◌&&◌, Option,
  none, some, List, [], ◌∷◌, ◌++◌, append_assoc, append-nil, map, length, any, keep, ltb, leb,
  nat_eq, if◌then◌else◌, Result, ok, err, Bool-cases, Option-cases, inl, inr, arith, ◌==◌, eq_iff,
  eq_refl, ◌<◌, ◌≤◌, ◌↔◌,
}
use meepo.Prelude.Text.{join, is_empty_text}
use meepo.Prelude.Dict.{get, insert}
use meepo.Host.Handshake.{negotiate_protocol, HandshakeError}
use meepo.Host.Handshake.Frames.{
  HelloFrame, LifecycleState, HandshakeKind, AcceptedFrame, IncompatibleFrame, DrainingFrame,
  accepted_frame, draining_frame, ReplacementPolicy,
}
use meepo.Host.Wire.Errors.{
  ProtocolError, OpErrorCode, OperationError, operation_error, operation_unavailable,
  invalid_request,
}
use meepo.Host.Wire.Envelope.{
  RequestFrame, ResponseFrame, ClientFrame, HostFrame, Json, ok_response, err_response,
  decode_client_frame, hello, request,
}
use meepo.Host.Continuity.Channels.{Channel}
use meepo.Host.Continuity.Snapshot.{SubscriptionFrame}
use meepo.Host.Continuity.{
  SessionState, Subscriber, OpenedSubscription, open_subscription, close_subscription,
}

abbrev pub protocol_min : ℕ
protocol_min = 0

abbrev pub protocol_max : ℕ
protocol_max = 0

abbrev pub compatibility_epoch : ℕ
compatibility_epoch = 10

pub record OpContext : Type 0 where
  pub host_epoch : String
  pub lifecycle : LifecycleState

pub data Outcome (V : Type 0) : Type 0 where
  outcome_ok : V → Outcome V
  outcome_err : OpErrorCode → String → Outcome V

abbrev is_draining : LifecycleState → Bool
is_draining LifecycleState.draining = true
is_draining s = false

-- A handler works on the state that all handlers share.
abbrev pub Handler : (V W : Type 0) → Type 0
Handler V W = V → OpContext → W → W × Outcome V

module _ {V W : Type 0} where
  unfoldable pub register :
      List (String × Handler V W) → String → Handler V W → List (String × Handler V W)
  unfolding insert
  register handlers op h = insert handlers op h

  abbrev pub handled : String → V → OpContext → W → Option (Handler V W) → W × Outcome V
  handled op input ctx w none =
      (w, outcome_err operation_unavailable (join "unknown operation '" (join op "'")))
  handled op input ctx w (some h) = h input ctx w

  unfoldable pub dispatch : List (String × Handler V W) → String → V → OpContext → W → W × Outcome V
  unfolding get
  dispatch handlers op input ctx w = handled op input ctx w (get handlers op)

-- what a read of the connection gives
pub data Read (V : Type 0) : Type 0 where
  frame : V → Read V
  fault : Read V

pub record Arrival (V : Type 0) : Type 0 where
  pub read : Read V
  pub enqueues : Bool
  pub subscription_id : String

abbrev pub or_default : Option String → String
or_default none = ""
or_default (some s) = s

module _ {V : Type 0} where
  -- the reply to the first frame, and whether the request loop begins
  abbrev replied : OpContext → String → Result ℕ HandshakeError → HostFrame V × Bool
  replied ctx connection_id (err e) = (
    HostFrame.incompatible (record {
      kind = HandshakeKind.incompatible;
      host_epoch = ctx.host_epoch;
      protocol_min = protocol_min;
      protocol_max = protocol_max;
      compatibility_epoch = compatibility_epoch;
      state = ctx.lifecycle;
      replacement = ReplacementPolicy.blocked_by_residency;
    }),
    false,
  )
  replied ctx connection_id (ok selected) =
      if is_draining ctx.lifecycle
      then (HostFrame.draining (draining_frame ctx.host_epoch), false)
      else (
        HostFrame.accepted (
            accepted_frame ctx.host_epoch connection_id selected compatibility_epoch ctx.lifecycle),
        true,
      )

  abbrev greeted :
      OpContext → String → Result (ClientFrame V) ProtocolError → Option (HostFrame V × Bool)
  greeted ctx connection_id (ok (hello h)) = some (
      replied ctx connection_id
        (negotiate_protocol h.protocol_min h.protocol_max protocol_min protocol_max))
  greeted ctx connection_id r = none

  -- `none` where nothing is sent at all
  unfoldable pub handshake : Json V → OpContext → String → Read V → Option (HostFrame V × Bool)
  unfolding decode_client_frame negotiate_protocol
  handshake json ctx connection_id (frame v) =
      greeted ctx connection_id (decode_client_frame json v)
  handshake json ctx connection_id fault = none

module _ {V W : Type 0} (json : Json V) (c : Channel (SubscriptionFrame V))
    (opened_json : String → OpenedSubscription V → V) (empty_object : V)
    (handlers : List (String × Handler V W)) (ctx : OpContext) where
  -- `responses` are those that were enqueued, `serving` whether the loop goes on.
  pub record Connection : Type 0 where
    pub world : W
    pub sessions : List (String × SessionState V c)
    pub detached : List (Subscriber V c)
    pub responses : List (ResponseFrame V)
    pub serving : Bool

  abbrev push_response : Bool → ResponseFrame V → List (ResponseFrame V) → List (ResponseFrame V)
  push_response enqueues r rs = if enqueues then rs ++ r ∷ [] else rs

  abbrev pub respond : String → String → Outcome V → ResponseFrame V
  respond rid op (outcome_ok v) = ok_response rid op v
  respond rid op (outcome_err code message) = err_response rid op (operation_error code message)

  abbrev pub open_op : Bool → String → RequestFrame V → Connection → Connection
  open_op enqueues subscription_id req k =
      let sid = or_default (json.get req.input "sessionId") in
      let out = open_subscription c subscription_id k.sessions sid in
      if is_empty_text sid
      then record k {
        responses =
            push_response enqueues
              (err_response req.request_id req.operation
                (operation_error invalid_request "sessionId is required"))
              k.responses;
      }
      else record k {
        sessions = out.0;
        responses =
            push_response enqueues
              (ok_response req.request_id req.operation (opened_json ctx.host_epoch out.1))
              k.responses;
      }

  abbrev pub close_op : Bool → RequestFrame V → Connection → Connection
  close_op enqueues req k =
      let sub = or_default (json.get req.input "subscriptionId") in
      let out =
        if is_empty_text sub
        then (k.sessions, [])
        else close_subscription c k.sessions sub ctx.host_epoch in
      record k {
        sessions = out.0;
        detached = k.detached ++ out.1;
        responses =
            push_response enqueues (ok_response req.request_id req.operation empty_object)
              k.responses;
      }

  -- Only here does a response that cannot be enqueued end the loop.
  abbrev pub dispatch_op : Bool → RequestFrame V → Connection → Connection
  dispatch_op enqueues req k =
      let out = dispatch handlers req.operation req.input ctx k.world in
      record k {
        world = out.0;
        responses = push_response enqueues (respond req.request_id req.operation out.1) k.responses;
        serving = enqueues;
      }

  unfoldable pub serve_request : Bool → String → RequestFrame V → Connection → Connection
  unfolding open_subscription close_subscription dispatch operation_error
  serve_request enqueues subscription_id req k =
      if req.operation == "subscription.open"
      then open_op enqueues subscription_id req k
      else if req.operation == "subscription.close"
      then close_op enqueues req k
      else dispatch_op enqueues req k

  abbrev pub serve_frame :
      Bool → String → Result (ClientFrame V) ProtocolError → Connection → Connection
  serve_frame enqueues subscription_id (ok (request req)) k =
      serve_request enqueues subscription_id req k
  serve_frame enqueues subscription_id r k = k

  abbrev pub serve_read : Arrival V → Read V → Connection → Connection
  serve_read a fault k = record k { serving = false }
  serve_read a (frame v) k = serve_frame a.enqueues a.subscription_id (decode_client_frame json v) k

  -- The request loop, up to the end of the reads.
  unfoldable pub serve_requests : List (Arrival V) → Connection → Connection
  unfolding serve_request decode_client_frame
  serve_requests [] k = record k { serving = false }
  serve_requests (a ∷ rest) k =
      let next = serve_read a a.read k in
      let more = serve_requests rest next in if next.serving then more else next
