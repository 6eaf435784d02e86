-- ===== src/Host/Requests.antt =====
-- crates/meepo-host/src/handlers/: what the request handlers share. `Fields` reads a
-- `serde_json::Value`, `Replies` writes one, and gives the text of a storage error. The reads of the
-- catalog do not fail here.
pub mod Sessions
pub mod Turns
pub mod Interactions
pub mod Status
pub mod Archived
use meepo.Prelude.{ℕ, String, Option, none, some, List, [], ◌∷◌, Bool}
use mathlib.Core.Option.{bind}
use meepo.Prelude.Int.{ℤ}
use meepo.Storage.{SessionRecord, StoreError}
use meepo.Host.Turns.{TurnStarted, TurnStopped}
use meepo.Host.Turns.Resume.{ResumePlan, ResumeStart}
use meepo.Host.Wire.Errors.{invalid_request}
use meepo.Host.Connection.{Outcome, outcome_err, or_default}

pub record Fields (V : Type 0) : Type 0 where
  pub member : V → String → Option V
  pub as_str : V → Option String
  pub as_i64 : V → Option ℤ
  pub as_array : V → Option (List V)
  -- the text of an object
  pub object_text : V → Option String
  -- the input with the member `expectedRevision`
  pub with_revision : V → ℕ → V

pub record Replies (V : Type 0) : Type 0 where
  pub session : SessionRecord → V
  pub page : List SessionRecord → V
  pub committed : SessionRecord → V
  -- expected, current
  pub conflict : ℤ → ℕ → V
  pub removed : Bool → V
  pub started : TurnStarted → V
  pub stopped : TurnStopped → V
  pub plan : ResumePlan → V
  pub resumed : ResumeStart → V
  pub message : StoreError → String

abbrev pub invalid : {V : Type 0} → String → Outcome V
invalid m = outcome_err invalid_request m

module _ {V : Type 0} (fields : Fields V) where
  abbrev pub text_at : V → String → Option String
  text_at input key = bind (fields.member input key) fields.as_str

  -- `str_field`
  unfoldable pub str_field : V → String → String
  str_field input key = or_default (text_at input key)

  abbrev with_text : Option String → List String → List String
  with_text none ts = ts
  with_text (some t) ts = t ∷ ts

  -- the members of an array that are strings
  abbrev pub strings : List V → List String
  strings [] = []
  strings (v ∷ vs) = with_text (fields.as_str v) (strings vs)

  abbrev pub strings_at : V → String → Option (List String)
  strings_at input key =
      bind (bind (fields.member input key) fields.as_array) (λ vs. some (strings vs))
