-- ===== src/Host/Continuity.antt =====
-- crates/meepo-host/src/continuity: the canonical snapshot of each session, and the frames that are
-- fanned out to its subscribers. `V` is `serde_json::Value`. The bounded `tokio::sync::mpsc` channel of
-- a subscriber is the interface `Channel`. The counters (`u64`) are numbers that no run exhausts. Each
-- operation holds the lock of the coordinator throughout.
pub mod Channels
pub mod Snapshot
pub mod Removal
pub mod Sequences
pub mod FanOut
pub mod Actions
pub mod Published
pub mod Delivery
use meepo.Prelude.{
  ℕ, suc, ◌+◌, ◌≡◌, refl, sym, ap, subst, ◌∙◌, String, Bool, true, false, not, ◌||◌, ◌&&◌, Option,
  none, some, List, [], ◌∷◌, ◌++◌, append_assoc, append-nil, map, length, any, keep, ltb, leb,
  nat_eq, if◌then◌else◌, Result, ok, err, Bool-cases, Option-cases, inl, inr, arith, ◌==◌, eq_iff,
  eq_refl, ◌<◌, ◌≤◌, ◌↔◌,
}
use meepo.Prelude.{zero, is_some, get_elem?}
use mathlib.Core.Option
use meepo.Prelude.Dict.{get, insert}
use meepo.Core.Event.{RuntimeEvent, Content, Role, Status}
use meepo.Host.Continuity.Channels.{Channel}
use meepo.Host.Continuity.Snapshot.{
  SessionContinuitySnapshot, fresh, SubscriptionFrame, ClosedReason, DeltaKind, session_projection,
  session_delta, closed,
}

abbrev pub sub_queue : ℕ
sub_queue = 32

pub record Subscriber (V : Type 0) (c : Channel (SubscriptionFrame V)) : Type 0 where
  pub subscription_id : String
  pub next_sequence : ℕ
  pub tx : c.State

pub record SessionState (V : Type 0) (c : Channel (SubscriptionFrame V)) : Type 0 where
  pub snapshot : SessionContinuitySnapshot V
  pub subscribers : List (Subscriber V c)

-- `frames`, the receiving side, is the channel's own.
pub record OpenedSubscription (V : Type 0) : Type 0 where
  pub subscription_id : String
  pub next_sequence : ℕ
  pub snapshot : SessionContinuitySnapshot V

-- `serde_json::to_value` of a status
abbrev status_str : Option Status → String
status_str none = ""
status_str (some Status.streaming) = "streaming"
status_str (some Status.completed) = "completed"
status_str (some Status.failed) = "failed"
status_str (some Status.aborted) = "aborted"
status_str (some Status.cancelled) = "cancelled"

module _ {A : Type 0} where
  -- `Vec::pop` on a list that is not empty
  abbrev pub split_last : A → List A → List A × A
  split_last x [] = ([], x)
  split_last x (y ∷ ys) = let rest = split_last y ys in (x ∷ rest.0, rest.1)

  -- `Vec::swap_remove`: the last element takes the place of the one that is removed.
  abbrev pub swap_remove : List A → ℕ → List A
  swap_remove [] i = []
  swap_remove (x ∷ []) zero = []
  swap_remove (x ∷ y ∷ ys) zero = let rest = split_last y ys in rest.1 ∷ rest.0
  swap_remove (x ∷ xs) (suc i) = x ∷ swap_remove xs i

abbrev is_model : Role → Bool
is_model Role.model = true
is_model r = false

module _ {V : Type 0} where
  abbrev is_text : Option (Content V) → Bool
  is_text (some (Content.text t o s)) = true
  is_text c = false

  unfoldable pub is_assistant_text : RuntimeEvent V → Bool
  is_assistant_text ev = is_model ev.role && (not (is_some ev.status) && is_text ev.content)

  abbrev text_of : Option (Content V) → String
  text_of (some (Content.text t o s)) = t
  text_of c = ""

module _ {V : Type 0} (c : Channel (SubscriptionFrame V)) where
  abbrev pub open_state : String → Option (SessionState V c) → SessionState V c
  open_state sid none = record { snapshot = fresh sid; subscribers = [] }
  open_state sid (some state) = state

  -- `subscription_id` is the id that `Uuid::new_v4` draws.
  unfoldable pub open_subscription :
      String
      → List (String × SessionState V c)
      → String
      → List (String × SessionState V c) × OpenedSubscription V
  unfolding get insert
  open_subscription subscription_id sessions sid =
      let state = open_state sid (get sessions sid) in
      (
        insert sessions sid (record state {
          subscribers =
              state.subscribers
              ++ record {
                subscription_id = subscription_id;
                next_sequence = 1;
                tx = c.channel sub_queue;
              }
                ∷ [];
        }),
        record { subscription_id = subscription_id; next_sequence = 1; snapshot = state.snapshot },
      )

  -- `iter().position(|s| s.subscription_id == id)`
  unfoldable pub position : List (Subscriber V c) → String → Option ℕ
  position [] id = none
  position (s ∷ subs) id =
      if s.subscription_id == id then some 0 else Option.map suc (position subs id)

  abbrev pub or_unsent : c.State → Option c.State → c.State
  or_unsent tx none = tx
  or_unsent tx (some tx') = tx'

  -- The closing frame is lost where the queue is full.
  abbrev pub close_channel : SubscriptionFrame V → Subscriber V c → Subscriber V c
  close_channel frame s = record s { tx = or_unsent s.tx (c.try_send frame s.tx) }

  abbrev removed_row : SubscriptionFrame V → Option (Subscriber V c) → List (Subscriber V c)
  removed_row frame none = []
  removed_row frame (some s) = close_channel frame s ∷ []

  abbrev pub remove_at :
      SubscriptionFrame V
      → List (Subscriber V c)
      → Option ℕ
      → List (Subscriber V c) × List (Subscriber V c)
  remove_at frame subs none = (subs, [])
  remove_at frame subs (some i) = (swap_remove subs i, removed_row frame (get_elem? subs i))

  -- the subscribers that stay, and the one that is removed behind its closing frame
  unfoldable pub remove_subscriber :
      String
      → ClosedReason
      → List (Subscriber V c)
      → String
      → List (Subscriber V c) × List (Subscriber V c)
  unfolding position
  remove_subscriber host_epoch reason subs id =
      remove_at (closed host_epoch id reason) subs (position subs id)

  unfoldable pub close_subscription :
      List (String × SessionState V c)
      → String
      → String
      → List (String × SessionState V c) × List (Subscriber V c)
  unfolding remove_subscriber
  close_subscription [] id host_epoch = ([], [])
  close_subscription ((k, state) ∷ sessions) id host_epoch =
      let rest = close_subscription sessions id host_epoch in
      let here = remove_subscriber host_epoch ClosedReason.session_removed state.subscribers id in
      ((k, record state { subscribers = here.0 }) ∷ rest.0, here.1 ++ rest.1)

  -- a subscriber behind one `try_send`, and whether that has failed
  abbrev pub sent_to : Subscriber V c → Option c.State → Subscriber V c × Bool
  sent_to s none = (record s { next_sequence = suc s.next_sequence }, true)
  sent_to s (some tx) = (record s { next_sequence = suc s.next_sequence; tx = tx }, false)

  abbrev pub send_one : (String → ℕ → SubscriptionFrame V) → Subscriber V c → Subscriber V c × Bool
  send_one build s = sent_to s (c.try_send (build s.subscription_id s.next_sequence) s.tx)

  -- the first loop of `fan_out`: the subscribers, and the ids of those to drop
  unfoldable pub send_all :
      (String → ℕ → SubscriptionFrame V)
      → List (Subscriber V c)
      → List (Subscriber V c) × List String
  send_all build [] = ([], [])
  send_all build (s ∷ subs) =
      let rest = send_all build subs in
      let one = send_one build s in
      (one.0 ∷ rest.0, if one.1 then s.subscription_id ∷ rest.1 else rest.1)

  -- its second loop
  unfoldable pub drop_all :
      String → List (Subscriber V c) → List String → List (Subscriber V c) × List (Subscriber V c)
  unfolding remove_subscriber
  drop_all host_epoch subs [] = (subs, [])
  drop_all host_epoch subs (id ∷ ids) =
      let here = remove_subscriber host_epoch ClosedReason.slow_consumer subs id in
      let rest = drop_all host_epoch here.0 ids in (rest.0, here.1 ++ rest.1)

  unfoldable pub fan_out :
      String
      → (String → ℕ → SubscriptionFrame V)
      → List (Subscriber V c)
      → List (Subscriber V c) × List (Subscriber V c)
  unfolding send_all drop_all
  fan_out host_epoch build subs =
      let sent = send_all build subs in drop_all host_epoch sent.0 sent.1

  -- a session with its new snapshot, behind the fan-out of a frame
  abbrev pub publish :
      List (String × SessionState V c)
      → String
      → String
      → SessionContinuitySnapshot V
      → (String → ℕ → SubscriptionFrame V)
      → List (Subscriber V c)
      → List (String × SessionState V c) × List (Subscriber V c)
  publish sessions sid host_epoch snapshot build subs =
      let out = fan_out host_epoch build subs in
      (insert sessions sid (record { snapshot = snapshot; subscribers = out.0 }), out.1)

  abbrev pub set_pending_in :
      (SessionContinuitySnapshot V → V)
      → List (String × SessionState V c)
      → String
      → String
      → List V
      → Option (SessionState V c)
      → List (String × SessionState V c) × List (Subscriber V c)
  set_pending_in to_value sessions sid host_epoch pending none = (sessions, [])
  set_pending_in to_value sessions sid host_epoch pending (some state) =
      let snapshot = record (state.snapshot) {
        projection_revision = suc state.snapshot.projection_revision;
        interactions_pending = pending;
      } in
      publish sessions sid host_epoch snapshot
        (λ id seq. session_projection host_epoch id seq (to_value snapshot)) state.subscribers

  unfoldable pub set_pending_interactions :
      (SessionContinuitySnapshot V → V)
      → List (String × SessionState V c)
      → String
      → String
      → List V
      → List (String × SessionState V c) × List (Subscriber V c)
  unfolding get insert fan_out
  set_pending_interactions to_value sessions sid host_epoch pending =
      set_pending_in to_value sessions sid host_epoch pending (get sessions sid)

  abbrev pub accept_in :
      (SessionContinuitySnapshot V → V)
      → (String → String → String → V)
      → List (String × SessionState V c)
      → String
      → String
      → String
      → RuntimeEvent V
      → Option (SessionState V c)
      → List (String × SessionState V c) × List (Subscriber V c)
  accept_in to_value turn_json sessions sid rid host_epoch ev none = (sessions, [])
  accept_in to_value turn_json sessions sid rid host_epoch ev (some state) =
      if is_some ev.status
      then (let snapshot = record (state.snapshot) {
        projection_revision = suc state.snapshot.projection_revision;
        root_turn = some (turn_json ev.turn_id rid (status_str ev.status));
      } in
          publish sessions sid host_epoch snapshot
            (λ id seq. session_projection host_epoch id seq (to_value snapshot)) state.subscribers)
      else if is_assistant_text ev
      then publish sessions sid host_epoch state.snapshot
          (λ id seq.
            session_delta host_epoch id seq ev.turn_id rid ev.id DeltaKind.text 0
              (text_of ev.content))
          state.subscribers
      else (sessions, [])

  -- `turn_json` is the JSON object with the members turnId, runId and status.
  unfoldable pub accept_runtime_event :
      (SessionContinuitySnapshot V → V)
      → (String → String → String → V)
      → List (String × SessionState V c)
      → String
      → String
      → String
      → RuntimeEvent V
      → List (String × SessionState V c) × List (Subscriber V c)
  unfolding get insert fan_out is_assistant_text
  accept_runtime_event to_value turn_json sessions sid rid host_epoch ev =
      accept_in to_value turn_json sessions sid rid host_epoch ev (get sessions sid)
