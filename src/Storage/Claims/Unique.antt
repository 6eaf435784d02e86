-- ===== src/Storage/Claims/Unique.antt =====
-- What a claim is found under, once another is recorded.
use meepo.Prelude.{
  ◌≡◌, ◌≢◌, refl, sym, subst, ap, String, true, false, not, ◌&&◌, Option, none, some, List, [], ◌∷◌,
  ◌++◌, keep, ok, Result, Bool-cases, inl, inr, arith, ◌==◌, eq_iff, eq_refl,
}
use meepo.Prelude.Int.{ℤ, pos, negsuc}
use meepo.Storage.{SqliteStore, ContinuationClaim, StoreError}
use meepo.Storage.Table.{insert_or_replace}
use meepo.Storage.Claims.{
  same_claim, same_number, same_start, same_source, valid_claim, record_continuation_claim,
  find_claim, read_continuation_claim,
}

-- two claims share no value of a unique key
pub record Apart (c d : ContinuationClaim) : Type 0 where
  pub id : c.claim_id ≢ d.claim_id
  pub boundary : c.boundary_digest ≢ d.boundary_digest
  pub invocation : c.target_invocation_id ≢ d.target_invocation_id
  pub run : c.target_run_id ≢ d.target_run_id
  pub start : (e : String) → c.start_event_id ≡ some e → d.start_event_id ≢ some e
  pub source :
      c.source_session_id ≡ d.source_session_id
      → c.source_run_id ≡ d.source_run_id
      → c.source_event_high_water ≡ d.source_event_high_water
      → c.source_prefix_digest ≢ d.source_prefix_digest
  pub turn : c.target_session_id ≡ d.target_session_id → c.target_turn_id ≢ d.target_turn_id

same_number-same : (a b : ℤ) → a ≡ b → same_number a b ≡ true
same_number-same (pos n) b q = subst (λ b. same_number (pos n) b ≡ true) q (grind arith)
same_number-same (negsuc n) b q = subst (λ b. same_number (negsuc n) b ≡ true) q (grind arith)

same_number-eq : (a b : ℤ) → same_number a b ≡ true → a ≡ b
same_number-eq (pos n) (pos m) h = let e : n ≡ m = ground (arith, h) in cc e
same_number-eq (negsuc n) (negsuc m) h = let e : n ≡ m = ground (arith, h) in cc e
same_number-eq (pos n) (negsuc m) h = cc h
same_number-eq (negsuc n) (pos m) h = cc h

same_start-same :
    (a b : Option String) (e : String) → a ≡ some e → b ≡ some e → same_start a b ≡ true
same_start-same a b e q r = rw (q, r) (eq_refl e)

same_source-same :
    (c d : ContinuationClaim)
    → c.source_session_id ≡ d.source_session_id
    → c.source_run_id ≡ d.source_run_id
    → c.source_event_high_water ≡ d.source_event_high_water
    → c.source_prefix_digest ≡ d.source_prefix_digest
    → same_source c d ≡ true
same_source-same c d q1 q2 q3 q4 = ground (
  arith,
  eq_iff c.source_session_id d.source_session_id,
  eq_iff c.source_run_id d.source_run_id,
  same_number-same c.source_event_high_water d.source_event_high_water q3,
  eq_iff c.source_prefix_digest d.source_prefix_digest,
)

same_claim-Apart : (c d : ContinuationClaim) → same_claim c d ≡ false → Apart c d
unfolding same_claim
same_claim-Apart c d h = record {
  id = λ q. ground (arith, h, eq_iff c.claim_id d.claim_id);
  boundary = λ q. ground (arith, h, eq_iff c.boundary_digest d.boundary_digest);
  invocation = λ q. ground (arith, h, eq_iff c.target_invocation_id d.target_invocation_id);
  run = λ q. ground (arith, h, eq_iff c.target_run_id d.target_run_id);
  start = λ e q r.
      (let k = same_start-same c.start_event_id d.start_event_id e q r in ground (arith, h, k));
  source = λ q1 q2 q3 q4. (let k = same_source-same c d q1 q2 q3 q4 in ground (arith, h, k));
  turn = λ q1 q2. ground (
    arith,
    h,
    eq_iff c.target_session_id d.target_session_id,
    eq_iff c.target_turn_id d.target_turn_id,
  );
}

differs : (s t : String) → s ≢ t → (s == t) ≡ false
differs s t n = ground (arith, eq_iff s t, n)

same_start-differs :
    (a b : Option String) → ((e : String) → a ≡ some e → b ≢ some e) → same_start a b ≡ false
same_start-differs none b f = refl
same_start-differs (some x) none f = refl
same_start-differs (some x) (some y) f = differs x y (λ q. f x refl (ap some (sym q)))

same_source-Apart : (c d : ContinuationClaim) → Apart c d → same_source c d ≡ false
same_source-Apart c d a = elim (Bool-cases (same_source c d)) [
  | inr k ↦ k
  | inl k ↦ absurd (
      a.source (ground (arith, k, eq_iff c.source_session_id d.source_session_id))
        (ground (arith, k, eq_iff c.source_run_id d.source_run_id))
        (same_number-eq c.source_event_high_water d.source_event_high_water (ground (arith, k)))
        (ground (arith, k, eq_iff c.source_prefix_digest d.source_prefix_digest)))
]

same_turn-Apart :
    (c d : ContinuationClaim)
    → Apart c d
    → ((c.target_session_id == d.target_session_id) && (c.target_turn_id == d.target_turn_id))
      ≡ false
same_turn-Apart c d a = elim (Bool-cases (c.target_session_id == d.target_session_id)) [
  | inr k ↦ rw k refl
  | inl k ↦ rw k (
      differs c.target_turn_id d.target_turn_id
        (a.turn ((eq_iff c.target_session_id d.target_session_id).0 k)))
]

Apart-same_claim : (c d : ContinuationClaim) → Apart c d → same_claim c d ≡ false
unfolding same_claim
Apart-same_claim c d a =
    rw
      (
        differs c.claim_id d.claim_id a.id,
        differs c.boundary_digest d.boundary_digest a.boundary,
        differs c.target_invocation_id d.target_invocation_id a.invocation,
        differs c.target_run_id d.target_run_id a.run,
        same_start-differs c.start_event_id d.start_event_id a.start,
        same_source-Apart c d a,
      )
      (same_turn-Apart c d a)

find-kept :
    (c : ContinuationClaim) (rows : List ContinuationClaim) (cid : String) (d : ContinuationClaim)
    → (c.claim_id == cid) ≡ false
    → find_claim (keep (λ x. not (same_claim c x)) rows ++ c ∷ []) cid ≡ some d
    → same_claim c d ≡ false
unfolding find_claim
find-kept c [] cid d k h = cc (rw k at h)
find-kept c (x ∷ rows) cid d k h = elim (Bool-cases (same_claim c x)) [
  | inl s ↦ find-kept c rows cid d k (rw s at h)
  | inr s ↦
      let h' = (rw s at h) in
      elim (Bool-cases (x.claim_id == cid)) [
        | inl e ↦ let q : x ≡ d = cc (rw e at h') in subst (λ d. same_claim c d ≡ false) q s
        | inr e ↦ find-kept c rows cid d k (rw e at h')
      ]
]

abbrev ok_store : SqliteStore → Result SqliteStore StoreError
ok_store st = ok st

recorded : {x : SqliteStore} (st1 : SqliteStore) → ok_store x ≡ ok_store st1 → x ≡ st1
recorded st1 h = cc h

other_id : (c x : ContinuationClaim) → same_claim c x ≡ false → (c.claim_id == x.claim_id) ≡ false
unfolding same_claim
other_id c x h = elim (Bool-cases (c.claim_id == x.claim_id)) [ inl e ↦ cc (rw e at h) | inr e ↦ e ]

find-recorded :
    (c : ContinuationClaim) (rows : List ContinuationClaim)
    → find_claim (keep (λ x. not (same_claim c x)) rows ++ c ∷ []) c.claim_id ≡ some c
unfolding find_claim
find-recorded c [] = rw (eq_refl c.claim_id) refl
find-recorded c (x ∷ rows) = elim (Bool-cases (same_claim c x)) [
  | inl s ↦ rw s (find-recorded c rows)
  | inr s ↦
      let o : (x.claim_id == c.claim_id) ≡ false =
        grind (arith, other_id c x s, eq_iff c.claim_id x.claim_id, eq_iff x.claim_id c.claim_id) in
      rw (s, o) (find-recorded c rows)
]

-- A claim that stood behind its id and shares no unique key with the new one stays there.
find-stays :
    (c : ContinuationClaim) (rows : List ContinuationClaim) (cid : String) (d : ContinuationClaim)
    → find_claim rows cid ≡ some d
    → same_claim c d ≡ false
    → find_claim (keep (λ x. not (same_claim c x)) rows ++ c ∷ []) cid ≡ some d
unfolding find_claim
find-stays c [] cid d h n = cc h
find-stays c (x ∷ rows) cid d h n = elim (Bool-cases (x.claim_id == cid)) [
  | inl e ↦
      let q : x ≡ d = cc (rw e at h) in
      let k : same_claim c x ≡ false = subst (λ y. same_claim c y ≡ false) (sym q) n in
      rw k (rw e (rw q refl))
  | inr e ↦ elim (Bool-cases (same_claim c x)) [
    | inl k ↦ rw k (find-stays c rows cid d (rw e at h) n)
    | inr k ↦ rw k (rw e (find-stays c rows cid d (rw e at h) n))
  ]
]

-- Once a claim is recorded, it reads back under its id. A claim that reads back under another id shares no
-- value of a unique key with it: neither a digest of the boundary, an invocation, run or turn of the
-- target, a start event nor the prefix of a source. And whatever read back under another id before, and
-- shares none, reads back still.
pub read-record_continuation_claim :
    (c : ContinuationClaim) (st st1 : SqliteStore)
    → record_continuation_claim c st ≡ ok st1
    → (read_continuation_claim st1 c.claim_id ≡ some c)
      × ((cid : String) (d : ContinuationClaim)
          → c.claim_id ≢ cid
          → read_continuation_claim st1 cid ≡ some d
          → Apart c d)
      × ((cid : String) (d : ContinuationClaim)
          → read_continuation_claim st cid ≡ some d
          → Apart c d
          → read_continuation_claim st1 cid ≡ some d)
unfolding record_continuation_claim insert_or_replace read_continuation_claim
read-record_continuation_claim c st st1 h = elim (Bool-cases (valid_claim st c)) [
  | inl v ↦
      let q = recorded st1 (rw v at h) in
      (
        subst (λ x. find_claim x.continuation_claims c.claim_id ≡ some c) q
            (find-recorded c st.continuation_claims),
        λ cid d n r. same_claim-Apart c d (
            find-kept c st.continuation_claims cid d (differs c.claim_id cid n)
              (subst (λ x. find_claim x.continuation_claims cid ≡ some d) (sym q) r)),
        λ cid d r a.
            subst (λ x. find_claim x.continuation_claims cid ≡ some d) q
              (find-stays c st.continuation_claims cid d r (Apart-same_claim c d a)),
      )
  | inr v ↦ cc (rw v at h)
]
