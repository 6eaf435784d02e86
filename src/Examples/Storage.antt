-- ===== src/Examples/Storage.antt =====
-- Runs of the SQLite store.
use meepo.Prelude.{
  ℕ, ◌≡◌, refl, subst, String, true, false, Option, none, some, List, [], ◌∷◌, length,
  if◌then◌else◌, ok, err, ◌==◌, ◌<◌,
}
use meepo.Prelude.Int.{pos}
use meepo.Core.Event.{RuntimeEvent}
use meepo.Core.Store
use meepo.Core.Store.{push_event, run_events}
use meepo.Runtime.Mapping.{map_session_event}
use meepo.Examples.{sample_event, sample_call, sample_complete}
use meepo.Storage.{SqliteStore, SessionRecord, ContinuationClaim, StoreError, in_memory}
use meepo.Storage.Table.{insert_row, insert_or_ignore, insert_or_replace}
use meepo.Storage.Events.{
  append_runtime_event, append_row, event_row, next_event_seq, event_seqs, maximum,
  read_runtime_events, read_runtime_event_high_water,
}
use meepo.Storage.Events.Numbering.{append_runtime_event-outcome, appended}
use meepo.Storage.Events.Reads.{append_events, append_each, empty_ledger, read-append_events}
use meepo.Storage.Catalog.{
  SessionPatch, committed, revision_conflict, create_session, update_session, find_session, patched,
  replace_session, any_matches,
}
use meepo.Storage.Catalog.Rows.{UniqueIds}
use meepo.Storage.Catalog.Revisions.{update_write, write_all, update_session-first_wins}
use meepo.Storage.Claims.{record_continuation_claim, read_continuation_claim, same_claim}
use meepo.Storage.Claims.Unique.{Apart, read-record_continuation_claim}
use meepo.Prelude.{◌≢◌}

-- an event serializes to its id
abbrev id_json : RuntimeEvent String → Option String
id_json e = some e.id

abbrev parse_id : String → Option (RuntimeEvent String)
parse_id s =
    if s == "e1"
    then some (sample_event sample_call)
    else if s == "e4"
    then some (sample_event sample_complete)
    else none

abbrev two_events : List (RuntimeEvent String)
two_events = sample_event sample_call ∷ sample_event sample_complete ∷ []

abbrev two_rows : SqliteStore
two_rows =
    appended (appended in_memory "e1" (sample_event sample_call)) "e4"
      (sample_event sample_complete)

appends : append_events id_json two_events in_memory ≡ ok two_rows
unfolding append_events append_runtime_event append_row insert_row event_row next_event_seq
    event_seqs maximum map_session_event
appends = refl

parses :
    (i : String) (e : RuntimeEvent String)
    → parse_id i ≡ some e
    → (payload : String) → some i ≡ some payload
    → parse_id payload ≡ some e
parses i e h payload k = let q : i ≡ payload = cc k in subst (λ p. parse_id p ≡ some e) q h

read-append_events_example :
    (read_runtime_events parse_id two_rows "s" "run-1"
      ≡ ok (Store.read_runtime_events (append_each two_events empty_ledger) "s" "run-1"))
    × (read_runtime_event_high_water two_rows "s" "run-1"
        ≡ length (Store.read_runtime_events (append_each two_events empty_ledger) "s" "run-1"))
unfolding map_session_event
read-append_events_example =
    read-append_events id_json parse_id two_events two_rows
      (
        parses "e1" (sample_event sample_call) refl,
        (parses "e4" (sample_event sample_complete) refl, tt),
      )
      appends "s" "run-1" "inv-1" (λ h. refl, (λ h. refl, tt))

append_runtime_event-outcome_example :
    append_runtime_event id_json two_rows "s" "run-1" (sample_event sample_call) true
    ≡ err StoreError.constraint_failed
unfolding append_row event_row map_session_event
append_runtime_event-outcome_example =
    append_runtime_event-outcome id_json two_rows "s" "run-1" (sample_event sample_call) true

abbrev pub sample_session : SessionRecord
sample_session = record {
  session_id = "s";
  name = "";
  labels = [];
  revision = 1;
  is_archived = false;
  cwd = "/";
  config_json = "{}";
  read_marker = none;
  created_at = 5;
  updated_at = 5;
}

abbrev pub one_session : SqliteStore
one_session = create_session sample_session in_memory

abbrev rename : String → SessionPatch
rename n = record {
  name = some n;
  labels = none;
  is_archived = none;
  cwd = none;
  config_json = none;
  read_marker = none;
}

abbrev renamed : SqliteStore
renamed = (update_session 6 one_session "s" 1 (rename "a")).0

abbrev renamed_row : SessionRecord
renamed_row = patched 6 (rename "a") sample_session

renames : update_session 6 one_session "s" 1 (rename "a") ≡ (renamed, committed renamed_row)
unfolding update_session create_session insert_or_ignore find_session patched replace_session
    any_matches
renames = refl

unique_session : UniqueIds (one_session.sessions)
unfolding UniqueIds create_session insert_or_ignore
unique_session = (refl, tt)

update_session-first_wins_example :
    (current : ℕ) × (update_session 8
        (write_all (update_write 7 "s" 2 (rename "b") ∷ []) renamed)
        "s"
        1
        (rename "c")
      ≡ (write_all (update_write 7 "s" 2 (rename "b") ∷ []) renamed, revision_conflict 1 current))
    × (1 < current)
update_session-first_wins_example =
    update_session-first_wins 6 8 one_session renamed "s" 1 (rename "a") (rename "c") renamed_row
      (update_write 7 "s" 2 (rename "b") ∷ []) unique_session renames

-- the claim `claim_id` of a session, whose continuation is `run-3` of another invocation
abbrev sample_claim : String → String → String → ContinuationClaim
sample_claim claim_id sid run = record {
  claim_id = claim_id;
  source_session_id = sid;
  source_invocation_id = "inv-1";
  source_run_id = "run-1";
  source_turn_id = "turn-1";
  source_event_high_water = pos 2;
  source_prefix_digest = sid;
  boundary_digest = claim_id;
  boundary_json = "{}";
  provider_projection_version = pos 1;
  provider_replay_digest = sid;
  target_session_id = sid;
  target_invocation_id = claim_id;
  target_run_id = run;
  target_turn_id = "turn-3";
  target_run_header_json = "{}";
  claimed_at = pos 9;
  start_event_id = none;
  start_kind = none;
  protocol_version = pos 1;
}

abbrev one_claim : SqliteStore
one_claim = record in_memory { continuation_claims = sample_claim "a" "s" "run-3" ∷ [] }

abbrev two_claims : SqliteStore
two_claims = record in_memory {
  continuation_claims = sample_claim "a" "s" "run-3" ∷ sample_claim "b" "t" "run-4" ∷ [];
}

records : record_continuation_claim (sample_claim "b" "t" "run-4") one_claim ≡ ok two_claims
unfolding record_continuation_claim insert_or_replace same_claim
records = refl

-- two sessions whose continuations are both `run-3`: the second claim displaces the first
displaced :
    record_continuation_claim (sample_claim "b" "t" "run-3") one_claim
    ≡ ok (record in_memory { continuation_claims = sample_claim "b" "t" "run-3" ∷ [] })
unfolding record_continuation_claim insert_or_replace same_claim
displaced = refl

read-record_continuation_claim_example :
    (read_continuation_claim two_claims "b" ≡ some (sample_claim "b" "t" "run-4"))
    × ((cid : String) (d : ContinuationClaim)
        → "b" ≢ cid
        → read_continuation_claim two_claims cid ≡ some d
        → Apart (sample_claim "b" "t" "run-4") d)
    × ((cid : String) (d : ContinuationClaim)
        → read_continuation_claim one_claim cid ≡ some d
        → Apart (sample_claim "b" "t" "run-4") d
        → read_continuation_claim two_claims cid ≡ some d)
read-record_continuation_claim_example =
    read-record_continuation_claim (sample_claim "b" "t" "run-4") one_claim two_claims records
