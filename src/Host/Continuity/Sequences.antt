-- ===== src/Host/Continuity/Sequences.antt =====
-- The sequence numbers of the frames: a subscriber is sent 1, 2, 3, ... without a gap for as long as
-- it is attached, and its channel takes nothing out of order afterwards.
use meepo.Prelude.{
  ℕ, suc, ◌≡◌, refl, sym, subst, String, Bool, true, false, Option, none, some, List, [], ◌∷◌, ◌++◌,
  append_assoc, append-nil, length, if◌then◌else◌, inl, inr, arith, ◌==◌, eq_refl,
}
use meepo.Prelude.{All, All-map, contains}
use meepo.Prelude.{◌⊎◌, length-append}
use meepo.Prelude.Counting.{CountsFrom, CountsFrom-next}
use meepo.Host.Continuity.Channels.{Channel, ChannelLaws}
use meepo.Host.Continuity.Snapshot.{
  SubscriptionFrame, ClosedReason, session_projection, session_delta, closed,
}
use meepo.Host.Continuity.Removal.{Distinct}
use meepo.Host.Continuity.{Subscriber, or_unsent, sent_to, send_all}

module _ {V : Type 0} where
  abbrev pub sequence_of : SubscriptionFrame V → List ℕ
  sequence_of (session_projection h i n v) = n ∷ []
  sequence_of (session_delta h i n t r m k o x) = n ∷ []
  sequence_of (SubscriptionFrame.session_event h i n v) = n ∷ []
  sequence_of (SubscriptionFrame.session_domain_changed h i n) = n ∷ []
  sequence_of (closed h i r) = []

  abbrev pub sequences : List (SubscriptionFrame V) → List ℕ
  sequences [] = []
  sequences (f ∷ fs) = sequence_of f ++ sequences fs

  sequences-append :
      (xs ys : List (SubscriptionFrame V)) → sequences (xs ++ ys) ≡ sequences xs ++ sequences ys
  sequences-append [] ys = refl
  sequences-append (x ∷ xs) ys =
      rw (sequences-append xs ys) (sym (append_assoc (sequence_of x) (sequences xs) (sequences ys)))

module _ {V : Type 0} (c : Channel (SubscriptionFrame V)) (laws : ChannelLaws c) where
  -- the sequence numbers that a subscriber's channel has taken
  abbrev pub taken_numbers : Subscriber V c → List ℕ
  taken_numbers s = sequences (laws.sent s.tx)

  -- what a channel has taken counts up from 1
  abbrev pub InOrder : Subscriber V c → Type 0
  InOrder s = CountsFrom 1 (taken_numbers s)

  -- and the next number is the one behind it
  pub record UpToDate (s : Subscriber V c) : Type 0 where
    pub in_order : CountsFrom 1 (taken_numbers s)
    pub next : s.next_sequence ≡ suc (length (taken_numbers s))

  abbrev pub Numbers : (String → ℕ → SubscriptionFrame V) → Type 0
  Numbers build = (id : String) (n : ℕ) → sequence_of (build id n) ≡ n ∷ []

  taken_numbers-send :
      (s : Subscriber V c) (f : SubscriptionFrame V) (tx : c.State)
      → c.try_send f s.tx ≡ some tx
      → sequences (laws.sent tx) ≡ taken_numbers s ++ sequence_of f
  taken_numbers-send s f tx h =
      rw
        (
          laws.sent-try_send f s.tx tx h,
          sequences-append (laws.sent s.tx) (f ∷ []),
          append-nil (sequence_of f),
        )
        refl

  pub closed_tx-InOrder :
      (s : Subscriber V c) (h i : String) (r : ClosedReason) (o : Option c.State)
      → c.try_send (closed h i r) s.tx ≡ o
      → InOrder s
      → CountsFrom 1 (sequences (laws.sent (or_unsent c s.tx o)))
  closed_tx-InOrder s h i r none e k = k
  closed_tx-InOrder s h i r (some tx) e k =
      rw (taken_numbers-send s (closed h i r) tx e, append-nil (taken_numbers s)) k

  -- a subscriber that is to be dropped
  abbrev pub Unsettled : List String → Subscriber V c → Type 0
  Unsettled ids s = UpToDate s ⊎ (InOrder s × (contains ids s.subscription_id ≡ true))

  send_one-Unsettled :
      (build : String → ℕ → SubscriptionFrame V) (s : Subscriber V c) (o : Option c.State)
      (ids : List String)
      → Numbers build
      → c.try_send (build s.subscription_id s.next_sequence) s.tx ≡ o
      → UpToDate s
      → Unsettled (if (sent_to c s o).1 then s.subscription_id ∷ ids else ids) ((sent_to c s o).0)
  send_one-Unsettled build s none ids n e u = inr (u.in_order, rw (eq_refl s.subscription_id) refl)
  send_one-Unsettled build s (some tx) ids n e u =
      let t = taken_numbers-send s (build s.subscription_id s.next_sequence) tx e in
      let t' = (rw (n s.subscription_id s.next_sequence, u.next) at t) in
      inl (record {
        in_order = subst (CountsFrom 1) (sym t') (CountsFrom-next (taken_numbers s) u.in_order);
        next =
            rw
              (
                t,
                n s.subscription_id s.next_sequence,
                length-append (taken_numbers s) (s.next_sequence ∷ []),
              )
              (omega (arith, u.next));
      })

  weaken-Unsettled :
      (id : String) (ids : List String) (s : Subscriber V c)
      → Unsettled ids s
      → Unsettled (id ∷ ids) s
  weaken-Unsettled id ids s (inl u) = inl u
  weaken-Unsettled id ids s (inr (k, m)) = inr (k, ground (arith, m))

  weaken-All :
      (b : Bool) (id : String) (ids : List String) (subs : List (Subscriber V c))
      → All (Unsettled ids) subs
      → All (Unsettled (if b then id ∷ ids else ids)) subs
  weaken-All true id ids subs h =
      All-map (Unsettled ids) (Unsettled (id ∷ ids)) (weaken-Unsettled id ids) subs h
  weaken-All false id ids subs h = h

  pub send_all-Unsettled :
      (build : String → ℕ → SubscriptionFrame V) (subs : List (Subscriber V c))
      → Numbers build
      → All UpToDate subs
      → All (Unsettled ((send_all c build subs).1)) ((send_all c build subs).0)
  unfolding send_all
  send_all-Unsettled build [] n h = tt
  send_all-Unsettled build (s ∷ subs) n h = (
    send_one-Unsettled build s _ ((send_all c build subs).1) n refl h.0,
    weaken-All _ s.subscription_id _ _ (send_all-Unsettled build subs n h.1),
  )

  abbrev pub sub_id : Subscriber V c → String
  sub_id s = s.subscription_id

  sent_to-id :
      (s : Subscriber V c) (o : Option c.State)
      → ((sent_to c s o).0).subscription_id ≡ s.subscription_id
  sent_to-id s none = refl
  sent_to-id s (some tx) = refl

  send_all-Apart :
      (build : String → ℕ → SubscriptionFrame V) (k : String) (subs : List (Subscriber V c))
      → All (λ y. (k == y.subscription_id) ≡ false) subs
      → All (λ y. (k == y.subscription_id) ≡ false) ((send_all c build subs).0)
  unfolding send_all
  send_all-Apart build k [] h = tt
  send_all-Apart build k (s ∷ subs) h = (rw (sent_to-id s _) h.0, send_all-Apart build k subs h.1)

  pub send_all-Distinct :
      (build : String → ℕ → SubscriptionFrame V) (subs : List (Subscriber V c))
      → Distinct sub_id subs
      → Distinct sub_id ((send_all c build subs).0)
  unfolding send_all Distinct
  send_all-Distinct build [] d = tt
  send_all-Distinct build (s ∷ subs) d = (
    rw (sent_to-id s _) (send_all-Apart build s.subscription_id subs d.0),
    send_all-Distinct build subs d.1,
  )
