-- ===== src/Host/Continuity/Actions.antt =====
-- The coordinator of crates/meepo-host/src/continuity/coordinator.rs and the receivers of its channels,
-- interleaved: each action is one critical section of the coordinator or a move of a receiver.
use meepo.Prelude.{◌≡◌, String, false, List, [], ◌∷◌, ◌++◌, map, if◌then◌else◌, ◌==◌}
use meepo.Prelude.{All}
use meepo.Core.Event.{RuntimeEvent}
use meepo.Host.Continuity.Channels.{Channel}
use meepo.Host.Continuity.Snapshot.{SubscriptionFrame, SessionContinuitySnapshot}
use meepo.Host.Continuity.{
  Subscriber, SessionState, open_subscription, close_subscription, set_pending_interactions,
  accept_runtime_event,
}

module _ {V : Type 0} (c : Channel (SubscriptionFrame V)) where
  -- The channels of the subscribers that were removed live on at their receivers.
  pub record SessionContinuityCoordinator : Type 0 where
    pub sessions : List (String × SessionState V c)
    pub detached : List (Subscriber V c)

  pub data ContinuityAction : Type 0 where
    -- the id that is drawn, session
    open_action : String → String → ContinuityAction
    -- subscription, host_epoch
    close_action : String → String → ContinuityAction
    -- session, host_epoch, pending
    pending_action : String → String → List V → ContinuityAction
    -- session, run, host_epoch
    event_action : String → String → String → RuntimeEvent V → ContinuityAction
    -- a move of the receiver of a subscription
    receive_action : String → c.Move → ContinuityAction

  abbrev pub moved : String → c.Move → Subscriber V c → Subscriber V c
  moved id m s = if s.subscription_id == id then record s { tx = c.receive m s.tx } else s

  abbrev pub moved_session : String → c.Move → String × SessionState V c → String × SessionState V c
  moved_session id m (k, state) =
      (k, record state { subscribers = map (moved id m) state.subscribers })

  abbrev pub absorb :
      SessionContinuityCoordinator
      → List (String × SessionState V c) × List (Subscriber V c)
      → SessionContinuityCoordinator
  absorb k out = record { sessions = out.0; detached = k.detached ++ out.1 }

  unfoldable pub take_action :
      (SessionContinuitySnapshot V → V)
      → (String → String → String → V)
      → ContinuityAction
      → SessionContinuityCoordinator
      → SessionContinuityCoordinator
  unfolding open_subscription close_subscription set_pending_interactions accept_runtime_event
  take_action to_value turn_json (open_action id sid) k = record k {
    sessions = (open_subscription c id k.sessions sid).0;
  }
  take_action to_value turn_json (close_action id epoch) k =
      absorb k (close_subscription c k.sessions id epoch)
  take_action to_value turn_json (pending_action sid epoch vs) k =
      absorb k (set_pending_interactions c to_value k.sessions sid epoch vs)
  take_action to_value turn_json (event_action sid rid epoch ev) k =
      absorb k (accept_runtime_event c to_value turn_json k.sessions sid rid epoch ev)
  take_action to_value turn_json (receive_action id m) k = record {
    sessions = map (moved_session id m) k.sessions;
    detached = map (moved id m) k.detached;
  }

  -- no subscriber has the id
  abbrev pub Unused : String → List (String × SessionState V c) → Type 0
  Unused id sessions =
      All
        (λ (p : String × SessionState V c).
          All (λ s. (s.subscription_id == id) ≡ false) p.1.subscribers)
        sessions

  -- the ids that the opens of a run draw are not in use
  abbrev pub FreshId : ContinuityAction → SessionContinuityCoordinator → Type 0
  FreshId (open_action id sid) k = Unused id k.sessions
  FreshId a k = Unit

  abbrev pub run_actions :
      (SessionContinuitySnapshot V → V)
      → (String → String → String → V)
      → List ContinuityAction
      → SessionContinuityCoordinator
      → SessionContinuityCoordinator
  run_actions to_value turn_json [] k = k
  run_actions to_value turn_json (a ∷ rest) k =
      run_actions to_value turn_json rest (take_action to_value turn_json a k)

  abbrev pub FreshIds :
      (SessionContinuitySnapshot V → V)
      → (String → String → String → V)
      → List ContinuityAction
      → SessionContinuityCoordinator
      → Type 0
  FreshIds to_value turn_json [] k = Unit
  FreshIds to_value turn_json (a ∷ rest) k =
      FreshId a k × FreshIds to_value turn_json rest (take_action to_value turn_json a k)
