-- ===== src/Runtime/Checkpoint.antt =====
-- crates/meepo-runtime/src/checkpoint.rs: compaction checkpoints over a prefix of a ledger.
-- `canonical_json` is `to_canonical_json().unwrap_or_default()`, and `sha256_hex` the hex digest of a
-- text; `none` is a failed assertion of `build_checkpoint`.
pub mod Coverage
use meepo.Prelude.{
  ℕ, String, Bool, true, false, ◌&&◌, not, ◌||◌, Option, none, some, List, [], ◌∷◌, ◌==◌, all,
  contains, length, last, take, ltb, if◌then◌else◌, Result, ok, err,
}
use meepo.Prelude.Int.{ℤ}
use meepo.Prelude.Text.{join, show, trim, is_empty_text}
use meepo.Core.Event.{RuntimeEvent}

pub record HistoryCompactCheckpoint : Type 0 where
  pub checkpoint_id : String
  pub session_id : String
  pub created_at_ts : ℤ
  pub event_count : ℕ
  pub turn_count : ℕ
  pub through_run_id : String
  pub through_turn_id : String
  pub through_event_id : String
  pub source_digest : String
  pub summary : String
  pub previous_checkpoint_id : Option String

-- `e.partial.unwrap_or(false) == false`
abbrev pub not_partial : Option Bool → Bool
not_partial none = true
not_partial (some b) = not b

module _ {V : Type 0} where
  -- the distinct turn ids, as a set
  unfoldable pub turn_ids : List (RuntimeEvent V) → List String
  turn_ids [] = []
  turn_ids (e ∷ es) =
      let rest = turn_ids es in if contains rest e.turn_id then rest else e.turn_id ∷ rest

  -- the text that the digest is taken over: each event's JSON and a newline
  unfoldable pub digest_input : (RuntimeEvent V → String) → List (RuntimeEvent V) → String
  digest_input canonical_json [] = ""
  digest_input canonical_json (e ∷ es) =
      join (canonical_json e) (join "\n" (digest_input canonical_json es))

  unfoldable pub source_digest_of :
      (RuntimeEvent V → String) → (String → String) → List (RuntimeEvent V) → String
  unfolding digest_input
  source_digest_of canonical_json sha256_hex es =
      join "sha256:" (sha256_hex (digest_input canonical_json es))

  abbrev pub assemble :
      (RuntimeEvent V → String)
      → (String → String)
      → String
      → List (RuntimeEvent V)
      → String
      → Option String
      → ℤ
      → Option (RuntimeEvent V)
      → Option HistoryCompactCheckpoint
  assemble canonical_json sha256_hex session_id covered trimmed previous now none = none
  assemble canonical_json sha256_hex session_id covered trimmed previous now (some boundary) =
      some (record {
        checkpoint_id = join "ckpt-" (join session_id (join "-" (show (length covered))));
        session_id = session_id;
        created_at_ts = now;
        event_count = length covered;
        turn_count = length (turn_ids covered);
        through_run_id = boundary.run_id;
        through_turn_id = boundary.turn_id;
        through_event_id = boundary.id;
        source_digest = source_digest_of canonical_json sha256_hex covered;
        summary = trimmed;
        previous_checkpoint_id = previous;
      })

  -- the assertions on the covered events
  abbrev pub coverable : String → List (RuntimeEvent V) → Bool
  coverable session_id covered =
      all (λ e. e.session_id == session_id) covered && all (λ e. not_partial e.partial) covered

  unfoldable pub build_checkpoint :
      (RuntimeEvent V → String)
      → (String → String)
      → String
      → List (RuntimeEvent V)
      → String
      → Option String
      → ℤ
      → Option HistoryCompactCheckpoint
  unfolding trim source_digest_of turn_ids
  build_checkpoint canonical_json sha256_hex session_id covered summary previous now =
      if coverable session_id covered && not (is_empty_text (trim summary))
      then assemble canonical_json sha256_hex session_id covered (trim summary) previous now
          (last covered)
      else none

  abbrev pub verify_boundary :
      (RuntimeEvent V → String)
      → (String → String)
      → HistoryCompactCheckpoint
      → List (RuntimeEvent V)
      → Option (RuntimeEvent V)
      → Result (Unit {0}) String
  verify_boundary canonical_json sha256_hex checkpoint prefix none = err "coverage_miss"
  verify_boundary canonical_json sha256_hex checkpoint prefix (some boundary) =
      if not (boundary.run_id == checkpoint.through_run_id)
        || not (boundary.turn_id == checkpoint.through_turn_id)
        || not (boundary.id == checkpoint.through_event_id)
      then err "coverage_miss"
      else if source_digest_of canonical_json sha256_hex prefix == checkpoint.source_digest
      then ok tt
      else err "source_hash_mismatch"

  unfoldable pub verify_checkpoint_prefix :
      (RuntimeEvent V → String)
      → (String → String)
      → HistoryCompactCheckpoint
      → List (RuntimeEvent V)
      → Result (Unit {0}) String
  unfolding source_digest_of
  verify_checkpoint_prefix canonical_json sha256_hex checkpoint source =
      if ltb (length source) checkpoint.event_count
      then err "coverage_miss"
      else verify_boundary canonical_json sha256_hex checkpoint (take checkpoint.event_count source)
          (last (take checkpoint.event_count source))
