-- ===== src/Host/Connection/Answers.antt =====
-- The answers of a connection: one for each request, in the order of the requests.
use meepo.Prelude.{
  ◌≡◌, refl, sym, ap, String, true, List, [], ◌∷◌, ◌++◌, append_assoc, append-nil, map, Result, ok,
  err, Bool-cases, inl, inr, ◌==◌,
}
use meepo.Prelude.{All}
use meepo.Prelude.Text.{is_empty_text}
use meepo.Host.Wire.Errors.{ProtocolError}
use meepo.Host.Wire.Envelope.{
  RequestFrame, ResponseFrame, ClientFrame, Json, decode_client_frame, hello, request,
}
use meepo.Host.Continuity.Channels.{Channel}
use meepo.Host.Continuity.Snapshot.{SubscriptionFrame}
use meepo.Host.Continuity.{OpenedSubscription}
use meepo.Host.Connection.{respond}
use meepo.Host.Connection.{
  OpContext, Outcome, outcome_ok, outcome_err, Handler, Read, frame, fault, Arrival, Connection,
  or_default, serve_request, serve_frame, serve_requests,
}

-- what ties a response to its request
abbrev pub RequestKey : Type 0
RequestKey = String × String

module _ {V : Type 0} where
  abbrev pub response_key : ResponseFrame V → RequestKey
  response_key r = (r.request_id, r.operation)

  abbrev decoded_key : Result (ClientFrame V) ProtocolError → List RequestKey
  decoded_key (ok (request req)) = (req.request_id, req.operation) ∷ []
  decoded_key r = []

  abbrev read_key : Json V → Read V → List RequestKey
  read_key json (frame v) = decoded_key (decode_client_frame json v)
  read_key json fault = []

  -- the requests among the reads
  abbrev pub request_keys : Json V → List (Arrival V) → List RequestKey
  request_keys json [] = []
  request_keys json (a ∷ rest) = read_key json a.read ++ request_keys json rest

  -- a read that is no framing fault, at a time when the response finds room
  pub data Served : Arrival V → Type 0 where
    served :
        (v : V) (sub : String)
        → Served (record { read = frame v; enqueues = true; subscription_id = sub })

  map-append_key :
      (xs : List (ResponseFrame V)) (r : ResponseFrame V)
      → map response_key (xs ++ r ∷ []) ≡ map response_key xs ++ response_key r ∷ []
  map-append_key [] r = refl
  map-append_key (x ∷ xs) r = ap (λ l. response_key x ∷ l) (map-append_key xs r)

module _ {V W : Type 0} (json : Json V) (c : Channel (SubscriptionFrame V))
    (opened_json : String → OpenedSubscription V → V) (empty_object : V)
    (handlers : List (String × Handler V W)) (ctx : OpContext) where
  abbrev Conn : Type 0
  Conn = Connection json c opened_json empty_object handlers ctx

  abbrev keys : Conn → List RequestKey
  keys k = map response_key k.responses

  respond-key :
      (rid op : String) (o : Outcome V)
      → response_key (respond json c opened_json empty_object handlers ctx rid op o) ≡ (rid, op)
  respond-key rid op (outcome_ok v) = refl
  respond-key rid op (outcome_err code message) = refl

  -- a request adds its answer and leaves the connection open
  serve_request-answers :
      (sub : String) (req : RequestFrame V) (k : Conn)
      → k.serving ≡ true
      → let k' = serve_request json c opened_json empty_object handlers ctx true sub req k in
        (keys k' ≡ keys k ++ (req.request_id, req.operation) ∷ []) × (k'.serving ≡ true)
  unfolding serve_request
  serve_request-answers sub req k s = elim (Bool-cases (req.operation == "subscription.open")) [
    | inl o ↦
        rw o (elim (Bool-cases (is_empty_text (or_default (json.get req.input "sessionId")))) [
          | inl e ↦ rw e (map-append_key k.responses _, s)
          | inr e ↦ rw e (map-append_key k.responses _, s)
        ])
    | inr o ↦ rw o (elim (Bool-cases (req.operation == "subscription.close")) [
      | inl x ↦ rw x (map-append_key k.responses _, s)
      | inr x ↦
          rw x (
            rw (map-append_key k.responses _, respond-key req.request_id req.operation _) refl,
            refl,
          )
    ])
  ]

  after_frame :
      (sub : String) (r : Result (ClientFrame V) ProtocolError) (k : Conn)
      → k.serving ≡ true
      → let k' = serve_frame json c opened_json empty_object handlers ctx true sub r k in
        (keys k' ≡ keys k ++ decoded_key r) × (k'.serving ≡ true)
  after_frame sub (ok (request req)) k s = serve_request-answers sub req k s
  after_frame sub (ok (hello h)) k s = (sym (append-nil (keys k)), s)
  after_frame sub (err e) k s = (sym (append-nil (keys k)), s)

  after_read :
      (a : Arrival V) (rest : List (Arrival V)) (k : Conn)
      → Served a
      → ((k' : Conn)
          → k'.serving ≡ true
          → keys (serve_requests json c opened_json empty_object handlers ctx rest k')
            ≡ keys k' ++ request_keys json rest)
      → k.serving ≡ true
      → keys (serve_requests json c opened_json empty_object handlers ctx (a ∷ rest) k)
        ≡ keys k ++ request_keys json (a ∷ rest)
  unfolding serve_requests
  after_read _ rest k (served v sub) ih s =
      let f = after_frame sub (decode_client_frame json v) k s in
      let k' =
        serve_frame json c opened_json empty_object handlers ctx true sub
          (decode_client_frame json v) k in
      let g = ih k' f.1 in
      rw (f.1, g, f.0)
        (append_assoc (keys k) (decoded_key (decode_client_frame json v)) (request_keys json rest))

  -- As long as every read gives a frame and every response finds room, the requests are answered one by
  -- one: the responses carry the ids and the operations of the requests, in their order, behind those
  -- that were there.
  pub serve_requests-answers :
      (arrivals : List (Arrival V)) (k : Conn)
      → All Served arrivals
      → k.serving ≡ true
      → keys (serve_requests json c opened_json empty_object handlers ctx arrivals k)
        ≡ keys k ++ request_keys json arrivals
  unfolding serve_requests
  serve_requests-answers [] k h s = sym (append-nil (keys k))
  serve_requests-answers (a ∷ rest) k h s =
      after_read a rest k h.0 (λ k'. serve_requests-answers rest k' h.1) s
