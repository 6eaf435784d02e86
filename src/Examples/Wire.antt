-- ===== src/Examples/Wire.antt =====
-- Runs of the codec and of a connection.
use meepo.Prelude.{
  ℕ, suc, ◌≡◌, refl, String, Bool, true, false, none, some, List, [], ◌∷◌, map, any, nat_eq,
  if◌then◌else◌, Result, ok, err, arith, ◌==◌,
}
use meepo.Prelude.{last}
use meepo.Host.Wire.Envelope.{RequestFrame, Json, decode_client_frame}
use meepo.Host.Handshake.Frames.{LifecycleState}
use meepo.Host.Continuity.Channels.{Channel, bounded_queue}
use meepo.Host.Continuity.Snapshot.{SubscriptionFrame}
use meepo.Host.Continuity.{OpenedSubscription}
use meepo.Host.Connection.{
  Handler, outcome_ok, OpContext, Connection, Arrival, frame, serve_requests,
}
use meepo.Host.Connection.Answers.{response_key, served, serve_requests-answers}
use meepo.Host.Wire.Codec.{Serde, encode, is_lf, is_cr}
use meepo.Host.Wire.Codec.Streams.{SerdeLaws, encode_all, decode_all, decode_all-encode_all}

abbrev utf8_text : List ℕ → String
utf8_text (b ∷ []) = if nat_eq b 49 then "1" else if nat_eq b 48 then "0" else ""
utf8_text bs = ""

-- two values, serialized as the digits 1 and 0
abbrev digit_serde : Serde Bool
digit_serde = record {
  to_vec = λ v. ok ((if v then 49 else 48) ∷ []);
  from_utf8 = λ bs. some (utf8_text bs);
  from_str = λ s. if s == "1" then ok true else if s == "0" then ok false else err "not a digit";
}

abbrev ok_json : List ℕ → Result (List ℕ) String
ok_json bs = ok bs

same_digits : {a b : List ℕ} → ok_json a ≡ ok_json b → b ≡ a
same_digits h = cc h

line : (v : Bool) → any is_lf ((if v then 49 else 48) ∷ []) ≡ false
line true = refl
line false = refl

cr : (v : Bool) → is_cr (last ((if v then 49 else 48) ∷ [])) ≡ false
cr true = refl
cr false = refl

back :
    (v : Bool)
    → (s : String) × (digit_serde.from_utf8 ((if v then 49 else 48) ∷ []) ≡ some s)
      × (digit_serde.from_str s ≡ ok v)
back true = ("1", refl, refl)
back false = ("0", refl, refl)

one_digit :
    (v : Bool) (json : List ℕ) → digit_serde.to_vec v ≡ ok json → json ≡ (if v then 49 else 48) ∷ []
one_digit v json h = same_digits h

digit_laws : SerdeLaws digit_serde
digit_laws = record {
  one_line = λ v json h. rw (one_digit v json h) (line v);
  no_cr = λ v json h. rw (one_digit v json h) (cr v);
  some_bytes = λ v json h. rw (one_digit v json h) refl;
  reads_back = λ v json h. rw (one_digit v json h) (back v);
}

encoded : encode_all digit_serde digit_laws (true ∷ false ∷ []) [] ≡ ok (49 ∷ 10 ∷ 48 ∷ 10 ∷ [])
unfolding encode_all encode
encoded = refl

decode_all-encode_all_example :
    decode_all digit_serde digit_laws 3 (49 ∷ 10 ∷ 48 ∷ 10 ∷ 49 ∷ [])
    ≡ ok (true ∷ false ∷ [], 49 ∷ [])
decode_all-encode_all_example =
    decode_all-encode_all digit_serde digit_laws (true ∷ false ∷ []) (49 ∷ 10 ∷ 48 ∷ 10 ∷ [])
      (49 ∷ []) encoded refl (omega arith)

-- a JSON text is a request whose id, operation and input are that text
abbrev text_request : String → Result (RequestFrame String) String
text_request s = ok (record { request_id = s; operation = s; input = s })

abbrev text_json : Json String
text_json = record {
  is_object = λ v. true;
  get = λ v key. if key == "kind" then none else some v;
  has = λ v key. true;
  to_hello = λ v. err v;
  to_request = text_request;
  to_accepted = λ v. err v;
  to_incompatible = λ v. err v;
  to_draining = λ v. err v;
  to_response = λ v. err v;
}

abbrev frames : Channel (SubscriptionFrame String)
frames = bounded_queue (SubscriptionFrame String)

abbrev id_of_opened : String → OpenedSubscription String → String
id_of_opened epoch opened = opened.subscription_id

abbrev count_handler : Handler String ℕ
count_handler input ctx n = (suc n, outcome_ok input)

abbrev sample_handlers : List (String × Handler String ℕ)
sample_handlers = ("host.status", count_handler) ∷ []

abbrev sample_ops : OpContext
sample_ops = record { host_epoch = "epoch"; lifecycle = LifecycleState.ready }

abbrev fresh_connection : Connection text_json frames id_of_opened "{}" sample_handlers sample_ops
fresh_connection = record {
  world = 0;
  sessions = [];
  detached = [];
  responses = [];
  serving = true;
}

abbrev arrival : String → Arrival String
arrival s = record { read = frame s; enqueues = true; subscription_id = "sub" }

abbrev sample_arrivals : List (Arrival String)
sample_arrivals =
    arrival "host.status"
    ∷ arrival "subscription.open"
    ∷ arrival "subscription.close"
    ∷ arrival "none"
    ∷ []

serve_requests-answers_example :
    map response_key (
      (serve_requests text_json frames id_of_opened "{}" sample_handlers sample_ops sample_arrivals
        fresh_connection).responses)
    ≡ ("host.status", "host.status")
      ∷ ("subscription.open", "subscription.open")
      ∷ ("subscription.close", "subscription.close")
      ∷ ("none", "none")
      ∷ []
unfolding decode_client_frame
serve_requests-answers_example =
    serve_requests-answers text_json frames id_of_opened "{}" sample_handlers sample_ops
      sample_arrivals fresh_connection
      (
        served "host.status" "sub",
        (
          served "subscription.open" "sub",
          (served "subscription.close" "sub", (served "none" "sub", tt)),
        ),
      )
      refl
