-- ===== src/Examples/Turns.antt =====
-- Runs of the turn coordinator, with texts that say nothing.
use meepo.Prelude.{◌≡◌, ◌≢◌, ◌∷◌, List, refl, String, none, [], ok, err}
use meepo.Prelude.Dict.{get}
use meepo.Examples.Storage.{one_session, sample_session}
use meepo.Storage.Table.{insert_or_ignore, order_by}
use meepo.Storage.Catalog.{create_session, get_session, find_session}
use meepo.Storage.Admissions.{read_admission_tip}
use meepo.Host.Turns.{
  TurnCoordinator, Texts, TurnStarted, turn_of, begin_turn, session_busy, release,
}
use meepo.Host.Turns.Actions.{TurnAction, start_action, stop_action, release_action, act_all}
use meepo.Host.Turns.Admission.{Admits, admitted, Extends, begin_turn-exclusive, begin_turn-Admits}
use meepo.Host.Turns.Race.{checking, running, interleave, in_turns, stages_of, interleave-both}

abbrev pub texts_over : (V : Type 0) → Texts V
texts_over V = record {
  identity_json = λ turn run inv content. content;
  content_of = λ s. s;
  invocation_of = λ s. "";
  boundary_json = λ run n turn. run;
  header_json = λ turn run. turn;
  event_json = λ e. e.id;
  sha256_hex = λ s. s;
  from_str = λ s. none;
}

abbrev no_texts : Texts String
no_texts = texts_over String

abbrev pub idle_host : TurnCoordinator
idle_host = record { store = one_session; active = []; messages = λ sid. 0 }

admits : Admits "s" idle_host
unfolding get get_session find_session create_session insert_or_ignore read_admission_tip order_by
admits = record { idle = refl; session = sample_session; found = refl; live = refl; sound = refl }

abbrev busy_host : TurnCoordinator
busy_host = admitted no_texts 7 "s" "hello" idle_host

-- a stop, a start of the session, and the end of another session's turn
abbrev later_actions : List TurnAction
later_actions = stop_action "s" ∷ start_action 8 "s" "more" ∷ release_action "t" ∷ []

begin_turn-exclusive_example :
    (k1 : TurnCoordinator) × (begin_turn no_texts 7 "s" "hello" idle_host ≡ ok (k1, turn_of "s" 1))
    × (begin_turn no_texts 9 "s" "again" (act_all no_texts later_actions k1) ≡ err session_busy)
    × (get ((release "s" (act_all no_texts later_actions k1)).active) "s" ≡ none)
    × ((j : String)
        → "s" ≢ j
        → get ((release "s" (act_all no_texts later_actions k1)).active) j
          ≡ get ((act_all no_texts later_actions k1).active) j)
begin_turn-exclusive_example =
    begin_turn-exclusive no_texts 7 9 "s" "hello" "again" idle_host later_actions admits
      (tt, (tt, (refl, tt)))

begins : begin_turn no_texts 7 "s" "hello" idle_host ≡ ok (busy_host, turn_of "s" 1)
unfolding begin_turn get get_session find_session create_session insert_or_ignore read_admission_tip
    order_by
begins = refl

abbrev begun : TurnCoordinator × TurnStarted
begun = (busy_host, turn_of "s" 1)

begin_turn-Admits_example : Admits "s" idle_host × Extends no_texts 7 "s" "hello" idle_host begun
begin_turn-Admits_example = begin_turn-Admits no_texts 7 "s" "hello" idle_host begun begins

interleave-both_example :
    stages_of (interleave no_texts 7 "s" "hello" "again" in_turns (checking, checking, idle_host))
    ≡ (running (turn_of "s" 1), running (turn_of "s" 1))
interleave-both_example = interleave-both no_texts 7 "s" "hello" "again" idle_host admits
