-- ===== src/Examples/InteractionHub.antt =====
-- Runs of the hub with one prompt.
use meepo.Prelude.{
  ◌≡◌, ◌≢◌, refl, sym, Bool-cases, inl, inr, ◌==◌, String, false, none, some, [], ◌∷◌, ◌++◌, ok,
  err,
}
use meepo.Prelude.Int.{pos}
use meepo.Prelude.Dict
use meepo.Core.Decision.{PermissionDecision}
use meepo.Core.Interaction.{PermissionAnswer}
use meepo.Host.InteractionHub.{
  InteractionHub, PendingInteraction, AnswerError, answer, ask, register, views, set_pending,
  pending_for_session,
}
use meepo.Host.InteractionHub.Answers.{answer-answer, answer-ask}
use meepo.Host.InteractionHub.Views.{IsCurrent, ask-IsCurrent, stale_view}

abbrev show_answer : PermissionAnswer → String
show_answer a = "answer"

abbrev empty_hub : InteractionHub String
empty_hub = record { pending = []; recorded = []; answered = []; published = [] }

-- the coordinator keeps state of one session
abbrev opened_hub : InteractionHub String
opened_hub = record empty_hub { published = ("s", []) ∷ [] }

-- what it shows is that no prompt waits
opened-IsCurrent : IsCurrent opened_hub
unfolding Dict.get views
opened-IsCurrent s vs h = elim (Bool-cases ("s" == s)) [
  | inl k ↦ (let h' = (rw k at h) in sym (cc h'))
  | inr k ↦ cc (rw k at h)
]

abbrev sample_prompt : PendingInteraction String
sample_prompt = record {
  ctx = record { session_id = "s"; run_id = "r"; turn_id = "t" };
  request_json = "{}";
  created_at = pos 1;
  view = "view";
}

abbrev yes_answer : PermissionAnswer
yes_answer = record { decision = PermissionDecision.allow; remember_for_turn = false }

abbrev no_answer : PermissionAnswer
no_answer = record { decision = PermissionDecision.deny; remember_for_turn = false }

abbrev answered_once : InteractionHub String
answered_once = record {
  pending = [];
  recorded =
      record {
        ctx = sample_prompt.ctx;
        request_id = "u1";
        created_at = pos 1;
        request_json = "{}";
        outcome_json = "answer";
      }
      ∷ [];
  answered = ("u1", yes_answer) ∷ [];
  published = [];
}

answered : answer show_answer (ask empty_hub "u1" sample_prompt) "u1" yes_answer ≡ ok answered_once
unfolding answer ask
answered = refl

answer-answer_example :
    answer show_answer answered_once "u1" no_answer ≡ err (AnswerError.not_found "u1")
answer-answer_example =
    answer-answer show_answer (ask empty_hub "u1" sample_prompt) answered_once "u1" yes_answer
      no_answer answered

answer-ask_example :
    (hub' : InteractionHub String) × (answer show_answer
        (ask empty_hub "u1" sample_prompt)
        "u1"
        yes_answer
      ≡ ok hub')
    × (hub'.answered ≡ [] ++ ("u1", yes_answer) ∷ [])
    × (Dict.get hub'.pending "u1" ≡ none)
    × ((j : String) → "u1" ≢ j → Dict.get hub'.pending j ≡ Dict.get empty_hub.pending j)
answer-ask_example = answer-ask show_answer empty_hub "u1" sample_prompt yes_answer

ask-IsCurrent_example : IsCurrent (ask opened_hub "u1" sample_prompt)
unfolding Dict.get views
ask-IsCurrent_example = ask-IsCurrent opened_hub "u1" sample_prompt refl opened-IsCurrent

stale_view_example :
    (hub' : InteractionHub String) × (answer show_answer
        (register opened_hub "u1" sample_prompt)
        "u1"
        yes_answer
      ≡ ok hub')
    × (views hub'.pending "s" ≡ [])
    × (Dict.get
          (set_pending hub' "s"
            (pending_for_session (register opened_hub "u1" sample_prompt) "s")).published
          "s"
        ≡ some ("view" ∷ []))
unfolding Dict.get views
stale_view_example = stale_view show_answer opened_hub "u1" sample_prompt yes_answer refl refl refl
