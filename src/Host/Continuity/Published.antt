-- ===== src/Host/Continuity/Published.antt =====
-- What a close, a projection and an event of a run do to the subscribers of every session: each stays up
-- to date, or is dropped behind a run of numbers in order.
use meepo.Prelude.{
  ℕ, ◌≡◌, refl, subst, String, Option, none, some, List, [], ◌∷◌, Bool-cases, inl, inr, ◌==◌,
}
use meepo.Prelude.{All, All-append, is_some}
use meepo.Prelude.Dict.{get, insert}
use meepo.Core.Event.{RuntimeEvent}
use meepo.Host.Continuity.Channels.{Channel, ChannelLaws}
use meepo.Host.Continuity.Snapshot.{SubscriptionFrame, SessionContinuitySnapshot, ClosedReason}
use meepo.Host.Continuity.Removal.{Distinct}
use meepo.Host.Continuity.Sequences.{sub_id, UpToDate, InOrder, Numbers}
use meepo.Host.Continuity.FanOut.{fan_out-Settled, remove_subscriber-Removed}
use meepo.Host.Continuity.{
  SessionState, close_subscription, set_pending_in, accept_in, publish, is_assistant_text,
}

module _ {V : Type 0} (c : Channel (SubscriptionFrame V)) (laws : ChannelLaws c) where
  abbrev pub SessionOk : SessionState V c → Type 0
  SessionOk state =
      All (UpToDate c laws) state.subscribers × Distinct (sub_id c laws) state.subscribers

  pub some_state : {x y : SessionState V c} → some x ≡ some y → x ≡ y
  some_state h = cc h

  pub get-Ok :
      (sessions : List (String × SessionState V c)) (sid : String) (state : SessionState V c)
      → get sessions sid ≡ some state
      → All (λ p. SessionOk p.1) sessions
      → SessionOk state
  unfolding get
  get-Ok [] sid state h a = cc h
  get-Ok ((j, w) ∷ sessions) sid state h a = elim (Bool-cases (j == sid)) [
    | inl k ↦ let q : w ≡ state = some_state (rw k at h) in subst SessionOk q a.0
    | inr k ↦ get-Ok sessions sid state (rw k at h) a.1
  ]

  pub insert-Ok :
      (sessions : List (String × SessionState V c)) (sid : String) (state : SessionState V c)
      → SessionOk state
      → All (λ p. SessionOk p.1) sessions
      → All (λ p. SessionOk p.1) (insert sessions sid state)
  unfolding insert
  insert-Ok [] sid state o a = (o, tt)
  insert-Ok ((j, w) ∷ sessions) sid state o a = elim (Bool-cases (j == sid)) [
    | inl k ↦ rw k (o, a.1)
    | inr k ↦ rw k (a.0, insert-Ok sessions sid state o a.1)
  ]

  pub close-Ok :
      (sessions : List (String × SessionState V c)) (id epoch : String)
      → All (λ p. SessionOk p.1) sessions
      → let out = close_subscription c sessions id epoch in
        All (λ p. SessionOk p.1) out.0 × All (InOrder c laws) out.1
  unfolding close_subscription
  close-Ok [] id epoch a = (tt, tt)
  close-Ok ((j, w) ∷ sessions) id epoch a =
      let here =
        remove_subscriber-Removed c laws (UpToDate c laws) epoch ClosedReason.session_removed
          w.subscribers id (λ s u. u.in_order) a.0.0 a.0.1 in
      let rest = close-Ok sessions id epoch a.1 in
      (((here.stays, here.distinct), rest.0), All-append (InOrder c laws) _ _ here.goes rest.1)

  publish-Ok :
      (sessions : List (String × SessionState V c)) (sid epoch : String)
      (snapshot : SessionContinuitySnapshot V) (build : String → ℕ → SubscriptionFrame V)
      (state : SessionState V c)
      → Numbers c laws build
      → SessionOk state
      → All (λ p. SessionOk p.1) sessions
      → let out = publish c sessions sid epoch snapshot build state.subscribers in
        All (λ p. SessionOk p.1) out.0 × All (InOrder c laws) out.1
  publish-Ok sessions sid epoch snapshot build state n o a =
      let f = fan_out-Settled c laws epoch build state.subscribers n o.0 o.1 in
      (insert-Ok sessions sid _ (f.attached, f.distinct) a, f.detached)

  pub pending-Ok :
      (to_value : SessionContinuitySnapshot V → V) (sessions : List (String × SessionState V c))
      (sid epoch : String) (vs : List V) (o : Option (SessionState V c))
      → get sessions sid ≡ o
      → All (λ p. SessionOk p.1) sessions
      → let out = set_pending_in c to_value sessions sid epoch vs o in
        All (λ p. SessionOk p.1) out.0 × All (InOrder c laws) out.1
  pending-Ok to_value sessions sid epoch vs none e a = (a, tt)
  pending-Ok to_value sessions sid epoch vs (some state) e a =
      publish-Ok sessions sid epoch _ _ state (λ i n. refl) (get-Ok sessions sid state e a) a

  pub event-Ok :
      (to_value : SessionContinuitySnapshot V → V) (turn_json : String → String → String → V)
      (sessions : List (String × SessionState V c)) (sid rid epoch : String) (ev : RuntimeEvent V)
      (o : Option (SessionState V c))
      → get sessions sid ≡ o
      → All (λ p. SessionOk p.1) sessions
      → let out = accept_in c to_value turn_json sessions sid rid epoch ev o in
        All (λ p. SessionOk p.1) out.0 × All (InOrder c laws) out.1
  event-Ok to_value turn_json sessions sid rid epoch ev none e a = (a, tt)
  event-Ok to_value turn_json sessions sid rid epoch ev (some state) e a =
      elim (Bool-cases (is_some ev.status)) [
        | inl k ↦ rw k (
            publish-Ok sessions sid epoch _ _ state (λ i n. refl) (get-Ok sessions sid state e a) a)
        | inr k ↦ rw k (elim (Bool-cases (is_assistant_text ev)) [
          | inl t ↦ rw t (
              publish-Ok sessions sid epoch _ _ state (λ i n. refl) (get-Ok sessions sid state e a)
                a)
          | inr t ↦ rw t (a, tt)
        ])
      ]
