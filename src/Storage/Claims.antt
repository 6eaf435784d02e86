-- ===== src/Storage/Claims.antt =====
-- crates/meepo-storage/src/lib.rs: the continuation claims of crash recovery. A new claim displaces
-- every claim that shares a unique key with it.
pub mod Unique
use meepo.Prelude.{sym}
use meepo.Prelude.{
  ◌≡◌, refl, subst, String, Bool, true, false, not, ◌||◌, ◌&&◌, Option, none, some, List, [], ◌∷◌,
  ◌++◌, any, keep, ltb, nat_eq, if◌then◌else◌, Result, ok, err, Bool-cases, inl, inr, arith, ◌==◌,
  eq_iff, eq_refl,
}
use meepo.Prelude.Int.{ℤ, pos, negsuc}
use meepo.Storage.{SqliteStore, ContinuationClaim, RuntimeEventRow, StoreError}
use meepo.Storage.Table.{insert_or_replace}

abbrev pub is_positive : ℤ → Bool
is_positive (pos n) = ltb 0 n
is_positive (negsuc n) = false

abbrev is_one : ℤ → Bool
is_one (pos n) = nat_eq n 1
is_one (negsuc n) = false

abbrev pub same_number : ℤ → ℤ → Bool
same_number (pos n) (pos m) = nat_eq n m
same_number (negsuc n) (negsuc m) = nat_eq n m
same_number a b = false

abbrev known_start_kind : Option String → Bool
known_start_kind none = true
known_start_kind (some k) = (k == "runtime_admission") || (k == "claim_repair")

-- the foreign key, which the bundled SQLite enforces
abbrev start_event_exists : List RuntimeEventRow → Option String → Bool
start_event_exists rows none = true
start_event_exists rows (some eid) = any (λ r. r.event_id == eid) rows

abbrev pub valid_claim : SqliteStore → ContinuationClaim → Bool
valid_claim st c =
    is_positive c.source_event_high_water
    && (is_one c.provider_projection_version
        && (known_start_kind c.start_kind
            && (is_one c.protocol_version
                && start_event_exists st.runtime_events c.start_event_id)))

-- NULL is not equal to NULL under UNIQUE.
abbrev pub same_start : Option String → Option String → Bool
same_start (some a) (some b) = a == b
same_start a b = false

abbrev pub same_source : ContinuationClaim → ContinuationClaim → Bool
same_source c d =
    (c.source_session_id == d.source_session_id)
    && ((c.source_run_id == d.source_run_id)
        && (same_number c.source_event_high_water d.source_event_high_water
            && (c.source_prefix_digest == d.source_prefix_digest)))

-- the PRIMARY KEY and every UNIQUE constraint
unfoldable pub same_claim : ContinuationClaim → ContinuationClaim → Bool
same_claim c d =
    (c.claim_id == d.claim_id)
    || ((c.boundary_digest == d.boundary_digest)
        || ((c.target_invocation_id == d.target_invocation_id)
            || ((c.target_run_id == d.target_run_id)
                || (same_start c.start_event_id d.start_event_id
                    || (same_source c d
                        || ((c.target_session_id == d.target_session_id)
                            && (c.target_turn_id == d.target_turn_id)))))))

unfoldable pub record_continuation_claim :
    ContinuationClaim → SqliteStore → Result SqliteStore StoreError
unfolding insert_or_replace same_claim
record_continuation_claim c st =
    if valid_claim st c
    then ok
        (record st { continuation_claims = insert_or_replace same_claim c st.continuation_claims })
    else err StoreError.constraint_failed

unfoldable pub find_claim : List ContinuationClaim → String → Option ContinuationClaim
find_claim [] cid = none
find_claim (c ∷ rows) cid = if c.claim_id == cid then some c else find_claim rows cid

unfoldable pub read_continuation_claim : SqliteStore → String → Option ContinuationClaim
unfolding find_claim
read_continuation_claim st cid = find_claim st.continuation_claims cid
