-- ===== src/Host/Continuity/Snapshot.antt =====
-- crates/meepo-host/src/continuity/snapshot.rs and frames.rs: the snapshot of a session and the frames
-- of a subscription. `V` is `serde_json::Value`; `to_vec_len` is the length of a serialized snapshot,
-- `none` where that fails.
use meepo.Prelude.{ℕ, String, Bool, Option, none, some, List, [], ltb}
use meepo.Host.Outbound.{usize_max}

abbrev snapshot_schema_version : ℕ
snapshot_schema_version = 3

abbrev max_snapshot_bytes : ℕ
max_snapshot_bytes = 57344

pub record MessageQueueProjection (V : Type 0) : Type 0 where
  pub queue_revision : ℕ
  pub steering : List V
  pub followup : List V

pub record SessionContinuitySnapshot (V : Type 0) : Type 0 where
  pub schema_version : ℕ
  pub session_id : String
  pub projection_revision : ℕ
  pub status : String
  pub root_turn : Option V
  pub queue : MessageQueueProjection V
  pub interactions_pending : List V

pub data DeltaKind : Type 0 where
  text thinking : DeltaKind

pub data ClosedReason : Type 0 where
  slow_consumer session_removed : ClosedReason

-- The arguments follow the fields of each variant.
pub data SubscriptionFrame (V : Type 0) : Type 0 where
  -- host_epoch, subscription_id, sequence, snapshot
  session_projection : String → String → ℕ → V → SubscriptionFrame V
  -- host_epoch, subscription_id, sequence, turn_id, run_id, message_id, delta_kind, start_offset, text
  session_delta :
      String → String → ℕ → String → String → String → DeltaKind → ℕ → String → SubscriptionFrame V
  -- host_epoch, subscription_id, sequence, payload
  session_event : String → String → ℕ → V → SubscriptionFrame V
  -- host_epoch, subscription_id, sequence
  session_domain_changed : String → String → ℕ → SubscriptionFrame V
  -- host_epoch, subscription_id, reason
  closed : String → String → ClosedReason → SubscriptionFrame V

abbrev or_max : Option ℕ → ℕ
or_max none = usize_max
or_max (some n) = n

module _ {V : Type 0} where
  abbrev pub fresh : String → SessionContinuitySnapshot V
  fresh sid = record {
    schema_version = snapshot_schema_version;
    session_id = sid;
    projection_revision = 0;
    status = "ready";
    root_turn = none;
    queue = record { queue_revision = 0; steering = []; followup = [] };
    interactions_pending = [];
  }

  abbrev encoded_bytes : (SessionContinuitySnapshot V → Option ℕ) → SessionContinuitySnapshot V → ℕ
  encoded_bytes to_vec_len s = or_max (to_vec_len s)

  abbrev over_cap : (SessionContinuitySnapshot V → Option ℕ) → SessionContinuitySnapshot V → Bool
  over_cap to_vec_len s = ltb max_snapshot_bytes (encoded_bytes to_vec_len s)

  abbrev pub kind : SubscriptionFrame V → String
  kind (session_projection h i n v) = "subscription.session_projection"
  kind (session_delta h i n t r m k o x) = "subscription.session_delta"
  kind (session_event h i n v) = "subscription.session_event"
  kind (session_domain_changed h i n) = "subscription.session_domain_changed"
  kind (closed h i r) = "subscription.closed"
