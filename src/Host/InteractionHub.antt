-- ===== src/Host/InteractionHub.antt =====
-- crates/meepo-host/src/server/interaction.rs: the prompts that wait for an answer. `V` is
-- `serde_json::Value`, `show_answer` the JSON of an answer. The hub is its pending map, the permissions that
-- it recorded, the answers that it sent, and the views that the continuity coordinator has from it of each
-- session that it keeps state of. `register`, `take_entry`, `pending_for_session` and `set_pending` are the critical sections; `ask` (up to
-- its wait) and `answer` run them with nothing in between.
pub mod Answers
pub mod Views
use meepo.Prelude.{
  String, Bool, Option, none, some, List, [], ◌∷◌, ◌++◌, ◌==◌, if◌then◌else◌, is_some, Result, ok,
  err,
}
use meepo.Prelude.Int.{ℤ}
use meepo.Prelude.Dict
use meepo.Core.Interaction.{PermissionAnswer}

pub record InteractionContext : Type 0 where
  pub session_id : String
  pub run_id : String
  pub turn_id : String

pub record PendingInteraction (V : Type 0) : Type 0 where
  pub ctx : InteractionContext
  pub request_json : String
  pub created_at : ℤ
  pub view : V

pub data AnswerError : Type 0 where
  not_found : String → AnswerError

-- the arguments of `record_permission`
pub record PermissionRow : Type 0 where
  pub ctx : InteractionContext
  pub request_id : String
  pub created_at : ℤ
  pub request_json : String
  pub outcome_json : String

pub record InteractionHub (V : Type 0) : Type 0 where
  pub pending : List (String × PendingInteraction V)
  pub recorded : List PermissionRow
  pub answered : List (String × PermissionAnswer)
  pub published : List (String × List V)

module _ {V : Type 0} where
  unfoldable pub views : List (String × PendingInteraction V) → String → List V
  views [] session_id = []
  views ((id, p) ∷ m) session_id =
      let rest = views m session_id in
      if p.ctx.session_id == session_id then p.view ∷ rest else rest

  unfoldable pub pending_for_session : InteractionHub V → String → List V
  unfolding views
  pending_for_session hub session_id = views hub.pending session_id

  -- `continuity.set_pending_interactions(session_id, host_epoch, views)`: it returns at once where the
  -- coordinator keeps no state of the session.
  unfoldable pub set_views : List (String × List V) → String → List V → List (String × List V)
  unfolding Dict.insert Dict.get
  set_views shown session_id vs =
      if is_some (Dict.get shown session_id) then Dict.insert shown session_id vs else shown

  abbrev pub set_pending : InteractionHub V → String → List V → InteractionHub V
  unfolding set_views
  set_pending hub session_id vs = record hub { published = set_views hub.published session_id vs }

  unfoldable pub publish_pending : InteractionHub V → String → InteractionHub V
  unfolding pending_for_session set_views
  publish_pending hub session_id = set_pending hub session_id (pending_for_session hub session_id)

  abbrev pub register : InteractionHub V → String → PendingInteraction V → InteractionHub V
  register hub id p = record hub { pending = Dict.insert hub.pending id p }

  -- `ask` from the new entry `p` up to its wait for the answer, where `id` is the new UUID
  unfoldable pub ask : InteractionHub V → String → PendingInteraction V → InteractionHub V
  unfolding publish_pending Dict.insert
  ask hub id p = publish_pending (register hub id p) p.ctx.session_id

  -- the entry leaves the map, its row is recorded, and its answer is sent
  abbrev pub take_entry :
      (PermissionAnswer → String)
      → InteractionHub V
      → String
      → PermissionAnswer
      → PendingInteraction V
      → InteractionHub V
  take_entry show_answer hub id a p = record hub {
    pending = Dict.remove hub.pending id;
    recorded =
        hub.recorded
        ++ record {
          ctx = p.ctx;
          request_id = id;
          created_at = p.created_at;
          request_json = p.request_json;
          outcome_json = show_answer a;
        }
          ∷ [];
    answered = hub.answered ++ (id, a) ∷ [];
  }

  abbrev pub answer_entry :
      (PermissionAnswer → String)
      → InteractionHub V
      → String
      → PermissionAnswer
      → Option (PendingInteraction V)
      → Result (InteractionHub V) AnswerError
  answer_entry show_answer hub id a none = err (not_found id)
  answer_entry show_answer hub id a (some p) =
      ok (publish_pending (take_entry show_answer hub id a p) p.ctx.session_id)

  unfoldable pub answer :
      (PermissionAnswer → String)
      → InteractionHub V
      → String
      → PermissionAnswer
      → Result (InteractionHub V) AnswerError
  unfolding publish_pending Dict.get Dict.remove
  answer show_answer hub id a = answer_entry show_answer hub id a (Dict.get hub.pending id)
