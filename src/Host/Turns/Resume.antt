-- ===== src/Host/Turns/Resume.antt =====
-- crates/meepo-host/src/server/turn/coordinator.rs: resumption of the latest run of a session.
use meepo.Prelude.{
  ℕ, suc, String, not, Option, none, some, List, [], ◌∷◌, nat_eq, if◌then◌else◌, Result, ok, err,
  ◌==◌,
}
use meepo.Prelude.Int.{pos}
use meepo.Prelude.Text.{join, show}
use meepo.Core.Event.{RuntimeEvent}
use meepo.Storage.{SqliteStore, StoreError, RootAdmissionRecord, ContinuationClaim}
use meepo.Storage.Admissions.{read_admission_tip}
use meepo.Storage.Events.{read_runtime_event_high_water, read_session_runtime_events}
use meepo.Storage.Claims.{record_continuation_claim}
use meepo.Host.Turns.{
  TurnError, not_found, storage, session_busy, TurnStarted, TurnCoordinator, Texts, begin_turn,
}

pub data ResumePlan : Type 0 where
  -- source_run_id, source_turn_id, source_runtime_event_high_water
  ready : String → Option String → ℕ → ResumePlan
  -- reason
  parked : String → ResumePlan

pub data ResumeStart : Type 0 where
  -- turn, source_run_id, source_runtime_event_high_water
  started : TurnStarted → String → ℕ → ResumeStart
  -- reason
  parked : String → ResumeStart

abbrev planned : SqliteStore → String → Option RootAdmissionRecord → ResumePlan
planned st sid none = ResumePlan.parked "resume_candidate_missing"
planned st sid (some tip) =
    let high_water = read_runtime_event_high_water st sid tip.run_id in
    if tip.poisoned
    then ResumePlan.parked "safety_check_failed"
    else if nat_eq high_water 0
    then ResumePlan.parked "source_run_unreadable"
    else ready tip.run_id (some tip.turn_id) high_water

unfoldable pub resume_query : String → TurnCoordinator → ResumePlan
unfolding read_admission_tip read_runtime_event_high_water
resume_query sid k = planned k.store sid (read_admission_tip k.store sid)

abbrev or_empty : Option String → String
or_empty none = ""
or_empty (some s) = s

module _ {V : Type 0} (texts : Texts V) where
  abbrev prefix_of : String → List (RuntimeEvent V) → String
  prefix_of rid [] = ""
  prefix_of rid (e ∷ es) =
      let rest = prefix_of rid es in
      if e.run_id == rid then join (texts.event_json e) rest else rest

  abbrev continuation_claim :
      String → ℕ → String → String → Option String → ℕ → String → String → ℕ → ContinuationClaim
  continuation_claim claim_id now sid source_run source_turn high_water identity prefix n2 =
      let target_turn = join "turn-" (show n2) in
      let target_run = join "run-" (show n2) in
      let source_prefix_digest = texts.sha256_hex prefix in
      record {
        claim_id = claim_id;
        source_session_id = sid;
        source_invocation_id = texts.invocation_of identity;
        source_run_id = source_run;
        source_turn_id = or_empty source_turn;
        source_event_high_water = pos high_water;
        source_prefix_digest = source_prefix_digest;
        boundary_digest = texts.sha256_hex (
            join source_prefix_digest (
              join ":"
                (join target_turn (join ":" (join target_run (join ":" (show high_water)))))));
        boundary_json = texts.boundary_json source_run high_water target_turn;
        provider_projection_version = pos 1;
        provider_replay_digest = texts.sha256_hex prefix;
        target_session_id = sid;
        target_invocation_id = join "inv-" (show n2);
        target_run_id = target_run;
        target_turn_id = target_turn;
        target_run_header_json = texts.header_json target_turn target_run;
        claimed_at = pos now;
        start_event_id = none;
        start_kind = none;
        protocol_version = pos 1;
      }

  abbrev continued :
      String
      → ℕ
      → TurnCoordinator
      → Result (TurnCoordinator × TurnStarted) TurnError
      → TurnCoordinator × Result ResumeStart TurnError
  continued source_run high_water k (ok r) = (r.0, ok (started r.1 source_run high_water))
  continued source_run high_water k (err session_busy) = (k, ok (ResumeStart.parked "session_busy"))
  continued source_run high_water k (err e) = (k, err e)

  -- The claim stays where the continuation is refused behind it.
  abbrev after_claim :
      ℕ
      → String
      → String
      → ℕ
      → String
      → TurnCoordinator
      → Result SqliteStore StoreError
      → TurnCoordinator × Result ResumeStart TurnError
  after_claim now sid source_run source_high_water content k (err e) = (k, err (storage e))
  after_claim now sid source_run source_high_water content k (ok st) =
      let k' = record k { store = st } in
      continued source_run source_high_water k' (begin_turn texts now sid content k')

  abbrev after_read :
      String
      → ℕ
      → String
      → String
      → Option String
      → ℕ
      → String
      → TurnCoordinator
      → Result (List (RuntimeEvent V)) StoreError
      → TurnCoordinator × Result ResumeStart TurnError
  after_read claim_id now sid source_run source_turn source_high_water identity k (err e) =
      (k, err (storage e))
  after_read claim_id now sid source_run source_turn source_high_water identity k (ok events) =
      after_claim now sid source_run source_high_water (texts.content_of identity) k (
        record_continuation_claim
          (continuation_claim claim_id now sid source_run source_turn source_high_water identity
            (prefix_of source_run events) (suc (k.messages sid)))
          k.store)

  abbrev after_tip :
      String
      → ℕ
      → String
      → String
      → Option String
      → ℕ
      → TurnCoordinator
      → Option RootAdmissionRecord
      → TurnCoordinator × Result ResumeStart TurnError
  after_tip claim_id now sid source_run source_turn source_high_water k none =
      (k, err (not_found "admission tip vanished"))
  after_tip claim_id now sid source_run source_turn source_high_water k (some tip) =
      after_read claim_id now sid source_run source_turn source_high_water tip.identity_json k
        (read_session_runtime_events texts.from_str k.store sid)

  abbrev pub resume_planned :
      String
      → ℕ
      → String
      → ℕ
      → TurnCoordinator
      → ResumePlan
      → TurnCoordinator × Result ResumeStart TurnError
  resume_planned claim_id now sid source_high_water k (ResumePlan.parked reason) =
      (k, ok (ResumeStart.parked reason))
  resume_planned claim_id now sid source_high_water k (ready source_run source_turn current_hw) =
      if not (nat_eq current_hw source_high_water)
      then (k, ok (ResumeStart.parked "source_run_changed"))
      else after_tip claim_id now sid source_run source_turn source_high_water k
          (read_admission_tip k.store sid)

  -- Nothing else writes between the calls here.
  unfoldable pub resume_start :
      String → ℕ → String → ℕ → TurnCoordinator → TurnCoordinator × Result ResumeStart TurnError
  unfolding resume_query read_admission_tip read_session_runtime_events record_continuation_claim
      begin_turn
  resume_start claim_id now sid source_high_water k =
      resume_planned claim_id now sid source_high_water k (resume_query sid k)
