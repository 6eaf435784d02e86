-- ===== src/Host/Requests/Turns.antt =====
-- crates/meepo-host/src/handlers/turn.rs: the turn operations, each a handler on the coordinator.
-- `now` and `claim_id` are the clock and the id that a request draws.
use meepo.Prelude.{ℕ, String, List, Option, some, Result, ok, err, if◌then◌else◌, ◌||◌}
use mathlib.Core.Option.{bind}
use meepo.Prelude.Int.{ℤ, pos}
use meepo.Prelude.Text.{join, is_empty_text}
use meepo.Host.Wire.Errors.{OpErrorCode}
use meepo.Host.Turns.{
  TurnCoordinator, TurnError, TurnStarted, TurnStopped, Texts, begin_turn, stop_turn,
}
use meepo.Host.Turns.Resume.{ResumeStart, resume_query, resume_start}
use meepo.Host.Connection.{Outcome, outcome_ok, outcome_err, Handler, register}
use meepo.Host.Requests.{Fields, Replies, invalid, str_field}

module _ {V : Type 0} (fields : Fields V) (replies : Replies V) (texts : Texts V) (now : ℕ)
    (claim_id : String) where
  -- the `Display` of an error
  abbrev shown : TurnError → String
  shown TurnError.session_busy = "session busy: a turn is already running"
  shown (TurnError.not_found m) = join "not found: " m
  shown (TurnError.session_archived s) = join "session archived: " s
  shown TurnError.session_poisoned = "session poisoned: admission chain marked poisoned"
  shown (TurnError.storage e) = join "storage: " (replies.message e)

  abbrev pub start_failure : TurnError → Outcome V
  start_failure TurnError.session_busy =
      outcome_err OpErrorCode.session_busy "a turn is already running for this session"
  start_failure (TurnError.not_found m) = outcome_err OpErrorCode.not_found m
  start_failure (TurnError.session_archived s) =
      outcome_err OpErrorCode.session_archived (join "session '" (join s "' is archived"))
  start_failure TurnError.session_poisoned =
      outcome_err OpErrorCode.operation_conflict "session admission chain is poisoned"
  start_failure (TurnError.storage e) =
      outcome_err OpErrorCode.persistence_failed (replies.message e)

  -- the other operations tell only a missing turn apart
  abbrev failure : TurnError → Outcome V
  failure (TurnError.not_found m) = outcome_err OpErrorCode.not_found m
  failure e = outcome_err OpErrorCode.internal_failure (shown e)

  abbrev pub start_reply :
      TurnCoordinator
      → Result (TurnCoordinator × TurnStarted) TurnError
      → TurnCoordinator × Outcome V
  start_reply k (ok r) = (r.0, outcome_ok (replies.started r.1))
  start_reply k (err e) = (k, start_failure e)

  unfoldable pub turn_start : Handler V TurnCoordinator
  unfolding str_field begin_turn
  turn_start input ctx k =
      let sid = str_field fields input "sessionId" in
      let content = str_field fields input "content" in
      if is_empty_text sid || is_empty_text content
      then (k, invalid "sessionId and content are required")
      else start_reply k (begin_turn texts now sid content k)

  abbrev stop_reply :
      TurnCoordinator
      → Result (TurnCoordinator × TurnStopped) TurnError
      → TurnCoordinator × Outcome V
  stop_reply k (ok r) = (r.0, outcome_ok (replies.stopped r.1))
  stop_reply k (err e) = (k, failure e)

  unfoldable turn_stop : Handler V TurnCoordinator
  unfolding str_field stop_turn
  turn_stop input ctx k =
      let sid = str_field fields input "sessionId" in
      if is_empty_text sid
      then (k, invalid "sessionId is required")
      else stop_reply k (stop_turn sid k)

  unfoldable turn_resume_query : Handler V TurnCoordinator
  unfolding str_field resume_query
  turn_resume_query input ctx k =
      let sid = str_field fields input "sessionId" in
      if is_empty_text sid
      then (k, invalid "sessionId is required")
      else (k, outcome_ok (replies.plan (resume_query sid k)))

  abbrev resume_reply : TurnCoordinator × Result ResumeStart TurnError → TurnCoordinator × Outcome V
  resume_reply (k, ok r) = (k, outcome_ok (replies.resumed r))
  resume_reply (k, err e) = (k, failure e)

  -- a high-water mark that is missing reads as -1
  abbrev resume_from : String → TurnCoordinator → Option ℤ → TurnCoordinator × Outcome V
  resume_from sid k (some (pos high_water)) =
      if is_empty_text sid
      then (k, invalid "sessionId and sourceRuntimeEventHighWater are required")
      else resume_reply (resume_start texts claim_id now sid high_water k)
  resume_from sid k h = (k, invalid "sessionId and sourceRuntimeEventHighWater are required")

  unfoldable turn_resume_start : Handler V TurnCoordinator
  unfolding str_field resume_start
  turn_resume_start input ctx k =
      resume_from (str_field fields input "sessionId") k
        (bind (fields.member input "sourceRuntimeEventHighWater") fields.as_i64)

  unfoldable register_turns :
      List (String × Handler V TurnCoordinator) → List (String × Handler V TurnCoordinator)
  unfolding register turn_start turn_stop turn_resume_query turn_resume_start
  register_turns hs =
      let h1 = register hs "turn.start" turn_start in
      let h2 = register h1 "turn.stop" turn_stop in
      let h3 = register h2 "turn.resume.query" turn_resume_query in
      register h3 "turn.resume.start" turn_resume_start
