-- ===== src/Host/Continuity/FanOut.antt =====
-- The fan-out of a frame: who stays behind it is up to date, and who is dropped was sent no gap.
use meepo.Prelude.{
  ℕ, suc, ◌≡◌, refl, subst, String, false, none, some, List, [], ◌∷◌, Bool-cases, Option-cases, inl,
  inr, arith, ◌==◌, eq_iff,
}
use meepo.Prelude.{All, All-map, All-append, get_elem?}
use meepo.Host.Continuity.Channels.{Channel, ChannelLaws}
use meepo.Host.Continuity.Snapshot.{SubscriptionFrame, ClosedReason}
use meepo.Host.Continuity.Removal.{
  Distinct, All-swap_remove, All-get_elem?, swap_remove-Distinct, swap_remove-Apart,
}
use meepo.Host.Continuity.{Subscriber, position, remove_subscriber, drop_all, fan_out, swap_remove}
use meepo.Host.Continuity.Sequences.{
  sub_id, InOrder, UpToDate, Unsettled, Numbers, closed_tx-InOrder, send_all-Unsettled,
  send_all-Distinct,
}

some_path : {i j : ℕ} → some i ≡ some j → i ≡ j
some_path h = cc h

module _ {V : Type 0} (c : Channel (SubscriptionFrame V)) (laws : ChannelLaws c) where
  -- a removal: what stays, what goes, and that the id is gone
  pub record Removed (P : Subscriber V c → Type 0) (id : String)
      (out : List (Subscriber V c) × List (Subscriber V c)) : Type 0 where
    pub stays : All P (out.0)
    pub goes : All (InOrder c laws) (out.1)
    pub distinct : Distinct (sub_id c laws) (out.0)
    pub gone : All (λ y. (id == y.subscription_id) ≡ false) (out.0)

  position-none :
      (subs : List (Subscriber V c)) (id : String)
      → position c subs id ≡ none
      → All (λ y. (id == y.subscription_id) ≡ false) subs
  unfolding position
  position-none [] id h = tt
  position-none (s ∷ subs) id h = elim (Bool-cases (s.subscription_id == id)) [
    | inl k ↦ cc (rw k at h)
    | inr k ↦ elim (Option-cases (position c subs id)) [
      | inl n ↦ (
        ground (arith, k, eq_iff s.subscription_id id, eq_iff id s.subscription_id),
        position-none subs id n,
      )
      | inr (i, e) ↦ cc (rw (k, e) at h)
    ]
  ]

  position-some :
      (subs : List (Subscriber V c)) (id : String) (i : ℕ)
      → position c subs id ≡ some i
      → (s : Subscriber V c) × (get_elem? subs i ≡ some s) × (s.subscription_id ≡ id)
  unfolding position
  position-some [] id i h = cc h
  position-some (s ∷ subs) id i h = elim (Bool-cases (s.subscription_id == id)) [
    | inl k ↦
        let q : 0 ≡ i = some_path (rw k at h) in
        subst
          (λ i. (t : Subscriber V c) × (get_elem? (s ∷ subs) i ≡ some t) × (t.subscription_id ≡ id))
          q (s, refl, grind (arith, k, eq_iff s.subscription_id id))
    | inr k ↦ elim (Option-cases (position c subs id)) [
      | inl n ↦ cc (rw (k, n) at h)
      | inr (j, e) ↦
          let q : suc j ≡ i = some_path (rw (k, e) at h) in
          let (t, g, m) = position-some subs id j e in
          subst
            (λ i.
              (t : Subscriber V c) × (get_elem? (s ∷ subs) i ≡ some t) × (t.subscription_id ≡ id))
            q (t, g, m)
    ]
  ]

  pub remove_subscriber-Removed :
      (P : Subscriber V c → Type 0) (host_epoch : String) (reason : ClosedReason)
      (subs : List (Subscriber V c)) (id : String)
      → ((s : Subscriber V c) → P s → InOrder c laws s)
      → All P subs
      → Distinct (sub_id c laws) subs
      → Removed P id (remove_subscriber c host_epoch reason subs id)
  unfolding remove_subscriber
  remove_subscriber-Removed P host_epoch reason subs id k h d =
      elim (Option-cases (position c subs id)) [
        | inl n ↦
            rw n (record { stays = h; goes = tt; distinct = d; gone = position-none subs id n })
        | inr (i, e) ↦
            let (s, g, m) = position-some subs id i e in
            rw (e, g)
              (record {
                stays = All-swap_remove P subs i h;
                goes = (
                  closed_tx-InOrder c laws s host_epoch id reason _ refl
                      (k s (All-get_elem? P subs i s g h)),
                  tt,
                );
                distinct = swap_remove-Distinct (sub_id c laws) subs i d;
                gone =
                    subst (λ x. All (λ y. (x == y.subscription_id) ≡ false) (swap_remove subs i)) m
                      (swap_remove-Apart (sub_id c laws) subs i s g d);
              })
      ]

  -- the outcome of a fan-out: who stays is up to date, and who was dropped was sent no gap
  pub record Settled (out : List (Subscriber V c) × List (Subscriber V c)) : Type 0 where
    pub attached : All (UpToDate c laws) (out.0)
    pub detached : All (InOrder c laws) (out.1)
    pub distinct : Distinct (sub_id c laws) (out.0)

  no_longer-Unsettled :
      (id : String) (ids : List String) (s : Subscriber V c)
      → Unsettled c laws (id ∷ ids) s
      → (id == s.subscription_id) ≡ false
      → Unsettled c laws ids s
  no_longer-Unsettled id ids s (inl u) a = inl u
  no_longer-Unsettled id ids s (inr (k, m)) a = inr (k, (rw a at m))

  no_longer-All :
      (id : String) (ids : List String) (subs : List (Subscriber V c))
      → All (Unsettled c laws (id ∷ ids)) subs
      → All (λ y. (id == y.subscription_id) ≡ false) subs
      → All (Unsettled c laws ids) subs
  no_longer-All id ids [] h a = tt
  no_longer-All id ids (s ∷ subs) h a =
      (no_longer-Unsettled id ids s h.0 a.0, no_longer-All id ids subs h.1 a.1)

  Unsettled-InOrder :
      (ids : List String) (s : Subscriber V c) → Unsettled c laws ids s → InOrder c laws s
  Unsettled-InOrder ids s (inl u) = u.in_order
  Unsettled-InOrder ids s (inr (k, m)) = k

  none-Unsettled : (s : Subscriber V c) → Unsettled c laws [] s → UpToDate c laws s
  none-Unsettled s (inl u) = u
  none-Unsettled s (inr (k, m)) = cc m

  drop_all-Settled :
      (host_epoch : String) (ids : List String) (subs : List (Subscriber V c))
      → All (Unsettled c laws ids) subs
      → Distinct (sub_id c laws) subs
      → Settled (drop_all c host_epoch subs ids)
  unfolding drop_all
  drop_all-Settled host_epoch [] subs h d = record {
    attached = All-map (Unsettled c laws []) (UpToDate c laws) none-Unsettled subs h;
    detached = tt;
    distinct = d;
  }
  drop_all-Settled host_epoch (id ∷ ids) subs h d =
      let here =
        remove_subscriber-Removed (Unsettled c laws (id ∷ ids)) host_epoch
          ClosedReason.slow_consumer subs id (Unsettled-InOrder (id ∷ ids)) h d in
      let out = remove_subscriber c host_epoch ClosedReason.slow_consumer subs id in
      let rest =
        drop_all-Settled host_epoch ids (out.0) (no_longer-All id ids (out.0) here.stays here.gone)
          here.distinct in
      record {
        attached = rest.attached;
        detached = All-append (InOrder c laws) (out.1) _ here.goes rest.detached;
        distinct = rest.distinct;
      }

  pub fan_out-Settled :
      (host_epoch : String) (build : String → ℕ → SubscriptionFrame V)
      (subs : List (Subscriber V c))
      → Numbers c laws build
      → All (UpToDate c laws) subs
      → Distinct (sub_id c laws) subs
      → Settled (fan_out c host_epoch build subs)
  unfolding fan_out
  fan_out-Settled host_epoch build subs n h d =
      drop_all-Settled host_epoch _ _ (send_all-Unsettled c laws build subs n h)
        (send_all-Distinct c laws build subs d)
