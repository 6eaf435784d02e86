-- ===== src/Host/Continuity/Delivery.antt =====
-- What every channel has taken under every sequence of actions.
use meepo.Prelude.{
  ◌≡◌, refl, subst, String, false, Option, none, some, List, [], ◌∷◌, ◌++◌, map, Bool-cases, inl,
  inr, ◌==◌,
}
use meepo.Prelude.{All, All-append}
use meepo.Prelude.Dict.{get}
use meepo.Prelude.Counting.{CountsFrom}
use meepo.Host.Continuity.Channels.{Channel, ChannelLaws}
use meepo.Host.Continuity.Snapshot.{SubscriptionFrame, SessionContinuitySnapshot}
use meepo.Host.Continuity.Removal.{Distinct}
use meepo.Host.Continuity.Sequences.{sub_id, UpToDate, InOrder}
use meepo.Host.Continuity.{
  Subscriber, SessionState, open_state, open_subscription, set_pending_interactions,
  accept_runtime_event, sub_queue,
}
use meepo.Host.Continuity.Actions.{
  SessionContinuityCoordinator, ContinuityAction, open_action, close_action, pending_action,
  event_action, receive_action, moved, moved_session, absorb, take_action, Unused, FreshId,
  FreshIds, run_actions,
}
use meepo.Host.Continuity.Published.{
  SessionOk, some_state, insert-Ok, get-Ok, close-Ok, pending-Ok, event-Ok,
}

module _ {V : Type 0} (c : Channel (SubscriptionFrame V)) (laws : ChannelLaws c) where
  pub record Sound (k : SessionContinuityCoordinator c) : Type 0 where
    pub attached : All (λ p. SessionOk c laws p.1) k.sessions
    pub detached : All (InOrder c laws) k.detached

  moved-UpToDate :
      (id : String) (m : c.Move) (s : Subscriber V c)
      → UpToDate c laws s
      → UpToDate c laws (moved c id m s)
  moved-UpToDate id m s u = elim (Bool-cases (s.subscription_id == id)) [
    | inl k ↦ rw k (record {
      in_order = rw (laws.sent-receive m s.tx) u.in_order;
      next = rw (laws.sent-receive m s.tx) u.next;
    })
    | inr k ↦ rw k u
  ]

  moved-InOrder :
      (id : String) (m : c.Move) (s : Subscriber V c)
      → InOrder c laws s
      → InOrder c laws (moved c id m s)
  moved-InOrder id m s u = elim (Bool-cases (s.subscription_id == id)) [
    | inl k ↦ rw k (rw (laws.sent-receive m s.tx) u)
    | inr k ↦ rw k u
  ]

  sub_ids-map :
      (id k : String) (m : c.Move) (subs : List (Subscriber V c))
      → All (λ y. (k == y.subscription_id) ≡ false) subs
      → All (λ y. (k == y.subscription_id) ≡ false) (map (moved c id m) subs)
  sub_ids-map id k m [] h = tt
  sub_ids-map id k m (s ∷ subs) h = elim (Bool-cases (s.subscription_id == id)) [
    | inl e ↦ rw e (h.0, sub_ids-map id k m subs h.1)
    | inr e ↦ rw e (h.0, sub_ids-map id k m subs h.1)
  ]

  moved-Distinct :
      (id : String) (m : c.Move) (subs : List (Subscriber V c))
      → Distinct (sub_id c laws) subs
      → Distinct (sub_id c laws) (map (moved c id m) subs)
  unfolding Distinct
  moved-Distinct id m [] d = tt
  moved-Distinct id m (s ∷ subs) d = elim (Bool-cases (s.subscription_id == id)) [
    | inl e ↦ rw e (sub_ids-map id s.subscription_id m subs d.0, moved-Distinct id m subs d.1)
    | inr e ↦ rw e (sub_ids-map id s.subscription_id m subs d.0, moved-Distinct id m subs d.1)
  ]

  map-All :
      (P : Subscriber V c → Type 0) (f : Subscriber V c → Subscriber V c)
      → ((s : Subscriber V c) → P s → P (f s))
      → (subs : List (Subscriber V c)) → All P subs
      → All P (map f subs)
  map-All P f k [] h = tt
  map-All P f k (s ∷ subs) h = (k s h.0, map-All P f k subs h.1)

  moved-Ok :
      (id : String) (m : c.Move) (sessions : List (String × SessionState V c))
      → All (λ p. SessionOk c laws p.1) sessions
      → All (λ p. SessionOk c laws p.1) (map (moved_session c id m) sessions)
  moved-Ok id m [] a = tt
  moved-Ok id m (p ∷ sessions) a = (
    (
      map-All (UpToDate c laws) (moved c id m) (moved-UpToDate id m) p.1.subscribers a.0.0,
      moved-Distinct id m p.1.subscribers a.0.1,
    ),
    moved-Ok id m sessions a.1,
  )

  push-Distinct :
      (subs : List (Subscriber V c)) (s : Subscriber V c)
      → All (λ y. (y.subscription_id == s.subscription_id) ≡ false) subs
      → Distinct (sub_id c laws) subs
      → Distinct (sub_id c laws) (subs ++ s ∷ [])
  unfolding Distinct
  push-Distinct [] s h d = (tt, tt)
  push-Distinct (x ∷ subs) s h d =
      (All-append _ subs (s ∷ []) d.0 (h.0, tt), push-Distinct subs s h.1 d.1)

  get-Unused :
      (sessions : List (String × SessionState V c)) (sid id : String) (state : SessionState V c)
      → get sessions sid ≡ some state
      → Unused c id sessions
      → All (λ s. (s.subscription_id == id) ≡ false) state.subscribers
  unfolding get
  get-Unused [] sid id state h a = cc h
  get-Unused ((j, w) ∷ sessions) sid id state h a = elim (Bool-cases (j == sid)) [
    | inl k ↦
        let q : w ≡ state = some_state c laws (rw k at h) in
        subst (λ (x : SessionState V c). All (λ s. (s.subscription_id == id) ≡ false) x.subscribers)
          q a.0
    | inr k ↦ get-Unused sessions sid id state (rw k at h) a.1
  ]

  opened-Ok :
      (state : SessionState V c) (id : String)
      → All (λ s. (s.subscription_id == id) ≡ false) state.subscribers
      → SessionOk c laws state
      → SessionOk c laws (record state {
        subscribers =
            state.subscribers
            ++ record { subscription_id = id; next_sequence = 1; tx = c.channel sub_queue } ∷ [];
      })
  unfolding CountsFrom
  opened-Ok state id u o = (
    All-append (UpToDate c laws) state.subscribers _ o.0 (
      record {
        in_order = rw (laws.sent-channel sub_queue) tt;
        next = rw (laws.sent-channel sub_queue) refl;
      },
      tt,
    ),
    push-Distinct state.subscribers _ u o.1,
  )

  open_state-Ok :
      (id sid : String) (sessions : List (String × SessionState V c))
      (o : Option (SessionState V c))
      → get sessions sid ≡ o
      → Unused c id sessions
      → All (λ p. SessionOk c laws p.1) sessions
      → SessionOk c laws (open_state c sid o)
        × All (λ s. (s.subscription_id == id) ≡ false) ((open_state c sid o).subscribers)
  unfolding Distinct
  open_state-Ok id sid sessions none e u a = ((tt, tt), tt)
  open_state-Ok id sid sessions (some state) e u a =
      (get-Ok c laws sessions sid state e a, get-Unused sessions sid id state e u)

  absorb-Sound :
      (k : SessionContinuityCoordinator c)
      (out : List (String × SessionState V c) × List (Subscriber V c))
      → Sound k
      → All (λ p. SessionOk c laws p.1) (out.0) × All (InOrder c laws) (out.1)
      → Sound (absorb c k out)
  absorb-Sound k out s h = record {
    attached = h.0;
    detached = All-append (InOrder c laws) k.detached _ s.detached h.1;
  }

  take_action-Sound :
      (to_value : SessionContinuitySnapshot V → V) (turn_json : String → String → String → V)
      (a : ContinuityAction c) (k : SessionContinuityCoordinator c)
      → FreshId c a k
      → Sound k
      → Sound (take_action c to_value turn_json a k)
  unfolding take_action open_subscription set_pending_interactions accept_runtime_event
  take_action-Sound to_value turn_json (open_action id sid) k f s =
      let o = open_state-Ok id sid k.sessions (get k.sessions sid) refl f s.attached in
      record {
        attached =
            insert-Ok c laws k.sessions sid _
              (opened-Ok (open_state c sid (get k.sessions sid)) id o.1 o.0) s.attached;
        detached = s.detached;
      }
  take_action-Sound to_value turn_json (close_action id epoch) k f s =
      absorb-Sound k _ s (close-Ok c laws k.sessions id epoch s.attached)
  take_action-Sound to_value turn_json (pending_action sid epoch vs) k f s =
      absorb-Sound k _ s (pending-Ok c laws to_value k.sessions sid epoch vs _ refl s.attached)
  take_action-Sound to_value turn_json (event_action sid rid epoch ev) k f s =
      absorb-Sound k _ s
        (event-Ok c laws to_value turn_json k.sessions sid rid epoch ev _ refl s.attached)
  take_action-Sound to_value turn_json (receive_action id m) k f s = record {
    attached = moved-Ok id m k.sessions s.attached;
    detached = map-All (InOrder c laws) (moved c id m) (moved-InOrder id m) k.detached s.detached;
  }

  -- Let the channels keep their laws, and let a coordinator satisfy `Sound`. Then opens, closes,
  -- projections, events and moves of the receivers, in any order, where each open draws an id that
  -- no subscriber has, leave a coordinator that satisfies `Sound`: every subscriber has been sent
  -- the sequence numbers from 1 up to the one before its next, in order and without a gap, and a
  -- subscriber that was closed or dropped was sent such a run of numbers too.
  pub run_actions-Sound :
      (to_value : SessionContinuitySnapshot V → V) (turn_json : String → String → String → V)
      (actions : List (ContinuityAction c)) (k : SessionContinuityCoordinator c)
      → FreshIds c to_value turn_json actions k
      → Sound k
      → Sound (run_actions c to_value turn_json actions k)
  run_actions-Sound to_value turn_json [] k f s = s
  run_actions-Sound to_value turn_json (a ∷ rest) k f s =
      run_actions-Sound to_value turn_json rest (take_action c to_value turn_json a k) f.1
        (take_action-Sound to_value turn_json a k f.0 s)
