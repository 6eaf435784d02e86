-- ===== src/Host/Turns.antt =====
-- crates/meepo-host/src/server/turn/coordinator.rs: admission of a turn, and its stop. The state holds the database, the active turns with whether their token is cancelled, and how
-- many messages each session's manager has. `Texts` stands for serde_json, SHA-256 and the parsing of
-- an identity. The drain task is modelled where it releases the session.
pub mod Actions
pub mod Admission
pub mod Resume
pub mod Race
use meepo.Prelude.{
  ℕ, suc, ◌+◌, ◌≡◌, refl, sym, ap, subst, ◌∙◌, String, Bool, true, false, not, ◌||◌, ◌&&◌, Option,
  none, some, List, [], ◌∷◌, ◌++◌, append_assoc, append-nil, map, length, any, keep, ltb, leb,
  nat_eq, if◌then◌else◌, Result, ok, err, Bool-cases, Option-cases, inl, inr, arith, ◌==◌, eq_iff,
  eq_refl, ◌<◌, ◌≤◌, ◌↔◌,
}
use meepo.Prelude.{◌>>=◌, ◌>>◌}
use meepo.Prelude.Int.{ℤ, pos}
use meepo.Prelude.Text.{join, show}
use meepo.Prelude.Dict.{get, insert, remove}
use meepo.Prelude.{is_some}
use meepo.Core.Event.{RuntimeEvent}
use meepo.Storage.{SqliteStore, StoreError, SessionRecord, RootAdmissionRecord, ContinuationClaim}
use meepo.Storage.Catalog.{get_session}
use meepo.Storage.Admissions.{read_admission_tip, extend_admission_chain}
use meepo.Storage.Events.{read_runtime_event_high_water, read_session_runtime_events}
use meepo.Storage.Claims.{record_continuation_claim}

pub data TurnError : Type 0 where
  session_busy : TurnError
  not_found : String → TurnError
  session_archived : String → TurnError
  session_poisoned : TurnError
  storage : StoreError → TurnError

pub record TurnStarted : Type 0 where
  pub session_id : String
  pub turn_id : String
  pub run_id : String
  pub status : String

pub record TurnStopped : Type 0 where
  pub session_id : String
  pub status : String

pub record TurnCoordinator : Type 0 where
  pub store : SqliteStore
  pub active : List (String × Bool)
  pub messages : String → ℕ

pub record Texts (V : Type 0) : Type 0 where
  -- turn, run, invocation, content
  pub identity_json : String → String → String → String → String
  -- the members of an identity, empty where they are missing
  pub content_of : String → String
  pub invocation_of : String → String
  -- source run, high water, target turn
  pub boundary_json : String → ℕ → String → String
  -- target turn, target run
  pub header_json : String → String → String
  -- an event, empty where it does not serialize
  pub event_json : RuntimeEvent V → String
  pub sha256_hex : String → String
  pub from_str : String → Option (RuntimeEvent V)

-- the first guard of `begin_turn`
unfoldable pub check_active : String → TurnCoordinator → Result (Unit {0}) TurnError
unfolding get
check_active sid k = if is_some (get k.active sid) then err session_busy else ok tt

abbrev pub live_session : String → Option SessionRecord → Result (Unit {0}) TurnError
live_session sid none =
    err (not_found (join "session '" (join sid "' does not exist (session.create it first)")))
live_session sid (some r) = if r.is_archived then err (session_archived sid) else ok tt

unfoldable pub check_session : String → TurnCoordinator → Result (Unit {0}) TurnError
unfolding get_session
check_session sid k = live_session sid (get_session k.store sid)

abbrev pub tip_poisoned : Option RootAdmissionRecord → Bool
tip_poisoned none = false
tip_poisoned (some t) = t.poisoned

abbrev pub tip_turn : Option RootAdmissionRecord → Option String
tip_turn none = none
tip_turn (some t) = some t.turn_id

-- the turn is active from here on
abbrev pub activate : String → TurnCoordinator → TurnCoordinator
activate sid k = record k { active = insert k.active sid false }

-- the end of the drain task
unfoldable pub release : String → TurnCoordinator → TurnCoordinator
unfolding remove
release sid k = record k { active = remove k.active sid }

abbrev stopped :
    String → TurnCoordinator → Option Bool → Result (TurnCoordinator × TurnStopped) TurnError
stopped sid k none = err (not_found (join "no active turn for session '" (join sid "'")))
stopped sid k (some cancelled) = ok (
  record k { active = insert k.active sid true },
  record { session_id = sid; status = "request_stop" },
)

-- The token is cancelled; the turn stays active until its drain task ends.
unfoldable pub stop_turn :
    String → TurnCoordinator → Result (TurnCoordinator × TurnStopped) TurnError
unfolding get insert
stop_turn sid k = stopped sid k (get k.active sid)

abbrev pub turn_of : String → ℕ → TurnStarted
turn_of sid n = record {
  session_id = sid;
  turn_id = join "turn-" (show n);
  run_id = join "run-" (show n);
  status = "running";
}

unfoldable pub extend : RootAdmissionRecord → TurnCoordinator → TurnCoordinator
unfolding extend_admission_chain
extend rec k = record k { store = extend_admission_chain rec k.store }

module _ {V : Type 0} (texts : Texts V) where
  abbrev pub admission_record :
      ℕ → String → String → ℕ → Option RootAdmissionRecord → RootAdmissionRecord
  admission_record now sid content n tip =
      let turn_id = join "turn-" (show n) in
      let run_id = join "run-" (show n) in
      record {
        session_id = sid;
        turn_id = turn_id;
        run_id = run_id;
        previous_root_turn_id = tip_turn tip;
        identity_json = texts.identity_json turn_id run_id (join "inv-" (show n)) content;
        admitted_at = now;
        poisoned = false;
      }

  -- the record that extends the chain from its tip
  unfoldable pub prepare :
      ℕ → String → String → TurnCoordinator → Result (RootAdmissionRecord × TurnStarted) TurnError
  unfolding read_admission_tip
  prepare now sid content k =
      let n = suc (k.messages sid) in
      let tip = read_admission_tip k.store sid in
      if tip_poisoned tip
      then err session_poisoned
      else ok (admission_record now sid content n tip, turn_of sid n)

  unfoldable pub admit :
      ℕ → String → String → TurnCoordinator → Result (TurnCoordinator × TurnStarted) TurnError
  unfolding prepare extend
  admit now sid content k = prepare now sid content k >>= λ p. ok (extend p.0 k, p.1)

  unfoldable pub begin_turn :
      ℕ → String → String → TurnCoordinator → Result (TurnCoordinator × TurnStarted) TurnError
  unfolding check_active check_session admit
  begin_turn now sid content k =
      check_active sid k
      >> (check_session sid k >> (admit now sid content k >>= λ r. ok (activate sid r.0, r.1)))
