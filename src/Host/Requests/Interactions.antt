-- ===== src/Host/Requests/Interactions.antt =====
-- crates/meepo-host/src/handlers/interaction.rs: the operations on the prompts that wait, each a handler
-- on the hub. `InteractionJson` is the JSON that they read and write besides texts.
use meepo.Prelude.{
  String, Bool, false, Option, none, some, List, Result, ok, err, if◌then◌else◌, ◌==◌,
}
use meepo.Prelude.Text.{is_empty_text}
use mathlib.Core.Option.{bind}
use meepo.Core.Interaction.{PermissionAnswer}
use meepo.Core.Decision.{PermissionDecision}
use meepo.Host.Wire.Errors.{OpErrorCode}
use meepo.Host.InteractionHub.{InteractionHub, AnswerError, pending_for_session, answer}
use meepo.Host.Connection.{Outcome, outcome_ok, outcome_err, Handler, register}
use meepo.Host.Requests.{Fields, invalid, text_at, str_field}

record InteractionJson (V : Type 0) : Type 0 where
  as_bool : V → Option Bool
  -- a session and its pending views
  pending : String → List V → V
  resolved : V
  show_answer : PermissionAnswer → String

abbrev answer_decision : Option String → Option PermissionDecision
answer_decision none = none
answer_decision (some t) =
    if t == "allow"
    then some PermissionDecision.allow
    else if t == "deny"
    then some PermissionDecision.deny
    else none

abbrev or_false : Option Bool → Bool
or_false none = false
or_false (some b) = b

module _ {V : Type 0} (fields : Fields V) (json : InteractionJson V) where
  unfoldable interaction_query : Handler V (InteractionHub V)
  unfolding str_field pending_for_session
  interaction_query input ctx hub =
      let sid = str_field fields input "sessionId" in
      if is_empty_text sid
      then (hub, invalid "sessionId is required")
      else (hub, outcome_ok (json.pending sid (pending_for_session hub sid)))

  abbrev answer_reply :
      InteractionHub V → Result (InteractionHub V) AnswerError → InteractionHub V × Outcome V
  answer_reply hub (ok hub') = (hub', outcome_ok json.resolved)
  answer_reply hub (err (AnswerError.not_found m)) =
      (hub, outcome_err OpErrorCode.already_resolved m)

  abbrev answered :
      V → String → InteractionHub V → Option PermissionDecision → InteractionHub V × Outcome V
  answered input id hub none = (hub, invalid "answer.decision must be 'allow' or 'deny'")
  answered input id hub (some decision) =
      let remember =
        bind (fields.member input "answer")
          (λ a. bind (fields.member a "rememberForTurn") json.as_bool) in
      answer_reply hub (
        answer json.show_answer hub id
          (record { decision = decision; remember_for_turn = or_false remember }))

  unfoldable interaction_answer : Handler V (InteractionHub V)
  unfolding str_field answer
  interaction_answer input ctx hub =
      let id = str_field fields input "interactionId" in
      if is_empty_text id
      then (hub, invalid "interactionId is required")
      else answered input id hub
          (answer_decision (bind (fields.member input "answer") (λ a. text_at fields a "decision")))

  unfoldable register_interactions :
      List (String × Handler V (InteractionHub V)) → List (String × Handler V (InteractionHub V))
  unfolding register interaction_query interaction_answer
  register_interactions hs =
      register (register hs "interaction.query" interaction_query) "interaction.answer"
        interaction_answer
