-- ===== src/Headless.antt =====
-- crates/meepo-headless/src/lib.rs: durable task runs. A run's state is the fold of its events; `run_task`
-- repeats attempts, each a turn of a fresh session, until one passes the gate. An attempt's backend is
-- the one that it finds. `none` is a panic.
pub mod Onward
pub mod Ledger
use meepo.Prelude.{
  ℕ, suc, ◌+◌, ◌≡◌, refl, sym, ap, subst, ◌∙◌, String, Bool, true, false, not, ◌||◌, ◌&&◌, Option,
  none, some, List, [], ◌∷◌, ◌++◌, append_assoc, append-nil, map, length, any, keep, ltb, leb,
  nat_eq, if◌then◌else◌, Result, ok, err, Bool-cases, Option-cases, inl, inr, arith, ◌==◌, eq_iff,
  eq_refl, ◌<◌, ◌≤◌, ◌↔◌,
}
use meepo.Prelude.{zero, ◌>>=◌}
use meepo.Prelude.Text.{join, show, trim}
use meepo.Prelude.Words.{take_chars, starts_with}
use meepo.Prelude.Dict.{get, insert}
use meepo.Core.Chat.{ChatMessage}
use meepo.Core.SessionEvent.{SessionEvent}
use meepo.Core.Store.{RuntimeEventStore}
use meepo.Storage.{StoreError}
use meepo.Runtime.Runner.{AgentBackend, BackendSendInput, RunStatus}
use meepo.Runtime.Session.{SessionManager, TurnResult, send_turn}
use meepo.Runtime.Session

pub data TaskRunStatus : Type 0 where
  queued created running verifying completed failed incomplete blocked : TaskRunStatus
  policy_denied budget_exhausted needs_approval aborted cancelled : TaskRunStatus

unfoldable pub is_terminal_status : TaskRunStatus → Bool
is_terminal_status queued = false
is_terminal_status created = false
is_terminal_status running = false
is_terminal_status verifying = false
is_terminal_status needs_approval = false
is_terminal_status s = true

pub record TaskDefinition : Type 0 where
  pub task_id : String
  pub instruction : String
  pub workspace_dir : String

pub record TaskRun : Type 0 where
  pub task_run_id : String
  pub task_id : String
  pub status : TaskRunStatus
  pub instruction : String
  pub started_at : Option ℕ
  pub finished_at : Option ℕ
  pub attempt_count : ℕ

-- The arguments follow the fields of each variant; a time stamp is a sequence number.
pub data TaskEvent : Type 0 where
  -- task_run_id, task_id, instruction, ts
  run_created : String → String → String → ℕ → TaskEvent
  run_queued : String → ℕ → TaskEvent
  -- task_run_id, attempt_id, ts
  attempt_started : String → String → ℕ → TaskEvent
  -- task_run_id, attempt_id, status, ts
  attempt_completed : String → String → TaskRunStatus → ℕ → TaskEvent
  run_completed : String → ℕ → TaskEvent
  -- task_run_id, error, ts
  run_failed : String → String → ℕ → TaskEvent

-- The port. An append gives the store that it leaves beside its result.
pub record TaskRunStore : Type 1 where
  pub State : Type 0
  pub append_event : State → String → ℕ → TaskEvent → State × Result (Unit {0}) StoreError
  pub read_events : State → String → Result (List TaskEvent) StoreError

-- `unwrap_or_default`
abbrev pub unwrapped : Result (List TaskEvent) StoreError → List TaskEvent
unwrapped (err e) = []
unwrapped (ok es) = es

abbrev or_no_events : Option (List TaskEvent) → List TaskEvent
or_no_events none = []
or_no_events (some es) = es

unfoldable pub append_task_event :
    List (String × List TaskEvent) → String → ℕ → TaskEvent → List (String × List TaskEvent)
unfolding get insert
append_task_event events id n e = insert events id (or_no_events (get events id) ++ e ∷ [])

unfoldable pub read_task_events : List (String × List TaskEvent) → String → List TaskEvent
unfolding get
read_task_events events id = or_no_events (get events id)

abbrev pub in_memory_tasks : TaskRunStore
in_memory_tasks = record {
  State = List (String × List TaskEvent);
  append_event = λ st id n e. (append_task_event st id n e, ok tt);
  read_events = λ st id. ok (read_task_events st id);
}

abbrev with_run : (TaskRun → TaskRun) → Option TaskRun → Option TaskRun
with_run f none = none
with_run f (some r) = some (f r)

-- one round of the fold: the run and the count of attempts
abbrev pub project_event : TaskEvent → Option TaskRun → ℕ → Option TaskRun × ℕ
project_event (run_created rid tid instruction ts) run n = (
  some (record {
    task_run_id = rid;
    task_id = tid;
    status = created;
    instruction = instruction;
    started_at = some ts;
    finished_at = none;
    attempt_count = 0;
  }),
  n,
)
project_event (run_queued rid ts) run n = (with_run (λ r. record r { status = queued }) run, n)
project_event (attempt_started rid aid ts) run n =
    (with_run (λ r. record r { status = running; attempt_count = suc n }) run, suc n)
project_event (attempt_completed rid aid status ts) run n =
    (with_run (λ r. record r { status = status }) run, n)
project_event (run_completed rid ts) run n =
    (with_run (λ r. record r { status = completed; finished_at = some ts }) run, n)
project_event (run_failed rid error ts) run n =
    (with_run (λ r. record r { status = failed; finished_at = some ts }) run, n)

unfoldable pub project_from : List TaskEvent → Option TaskRun → ℕ → Option TaskRun
project_from [] run n = run
project_from (e ∷ es) run n = let next = project_event e run n in project_from es next.0 next.1

unfoldable pub project_task_run : List TaskEvent → Option TaskRun
unfolding project_from
project_task_run es = project_from es none 0

pub data SelfCheckDecision : Type 0 where
  -- reason
  allow_finalize : String → SelfCheckDecision
  -- reason, prompt
  repair : String → String → SelfCheckDecision
  -- reason
  allow_after_bounded : String → SelfCheckDecision

module _ {V : Type 0} where
  -- A gate is asked with the attempt, its status and the backend.
  abbrev pub default_self_check : ℕ → TaskRunStatus → AgentBackend V → SelfCheckDecision
  default_self_check attempt status backend = allow_finalize "self-check not configured"

  abbrev last_text : List (SessionEvent V) → String → String
  last_text [] reply = reply
  last_text (SessionEvent.text_complete i t ts m text o ∷ es) reply = last_text es text
  last_text (e ∷ es) reply = last_text es reply

  abbrev check_input : ℕ → BackendSendInput V
  check_input attempt =
      let check_id = join "selfcheck-a" (show attempt) in
      record {
        turn_id = check_id;
        run_id = some check_id;
        invocation_id = some check_id;
        max_steps = none;
        messages =
            ChatMessage.user
              "Did you fully complete the task? Reply with YES or NO followed by a one-line reason."
            ∷ [];
        system_prompt = some "You are a strict task completion verifier.";
        tools = [];
      }

  -- `to_lowercase` is `str::to_lowercase`.
  unfoldable model_self_check :
      (String → String) → ℕ → TaskRunStatus → AgentBackend V → SelfCheckDecision
  unfolding trim starts_with take_chars
  model_self_check to_lowercase attempt status backend =
      let reply = last_text (backend.send_cancellable (check_input attempt)) "" in
      if starts_with (to_lowercase (trim reply)) "yes"
      then allow_finalize (join "model verified: " (take_chars 120 reply))
      else repair (join "model rejected: " (take_chars 120 reply)) (
          join "Your previous attempt did not pass self-check. Feedback: "
            (join reply ". Please complete the task fully."))

abbrev pub attempt_status : RunStatus → TaskRunStatus
attempt_status RunStatus.completed = completed
attempt_status RunStatus.aborted = aborted
attempt_status RunStatus.failed = failed

-- whether the gate, which is asked only about a completed attempt, lets the run end
abbrev pub allows : TaskRunStatus → SelfCheckDecision → Bool
allows completed (allow_finalize r) = true
allows completed (allow_after_bounded r) = true
allows s d = false

-- the instruction of the next attempt
abbrev pub next_instruction : String → TaskRunStatus → SelfCheckDecision → String
next_instruction instruction completed (repair r prompt) = prompt
next_instruction instruction s d = instruction

module _ {V : Type 0} (tasks : TaskRunStore) (events : RuntimeEventStore V)
    (gate : ℕ → TaskRunStatus → AgentBackend V → SelfCheckDecision) (backends : ℕ → AgentBackend V)
    (task_run_id : String) where
  -- the stores behind the attempts, whether one succeeded, and the next sequence number
  pub record Attempts : Type 0 where
    pub task_state : tasks.State
    pub event_state : events.State
    pub succeeded : Bool
    pub seq : ℕ

  -- `let _ = task_store.append_event(…)`: a failure is passed over
  abbrev pub append : tasks.State → ℕ → TaskEvent → tasks.State
  append ts n e = (tasks.append_event ts task_run_id n e).0

  -- behind the turn of an attempt; `rest` goes on with the next instruction
  abbrev pub after_turn :
      (String → tasks.State → events.State → Option Attempts)
      → ℕ
      → ℕ
      → String
      → tasks.State
      → Option (TurnResult V × SessionManager V × events.State)
      → Option Attempts
  after_turn rest attempt seq instruction ts none = none
  after_turn rest attempt seq instruction ts (some (result, session, es)) =
      let status = attempt_status result.status in
      let attempt_id = join task_run_id (join "-a" (show attempt)) in
      let ts' = append ts seq (attempt_completed task_run_id attempt_id status seq) in
      let decision = gate attempt status (backends attempt) in
      if allows status decision
      then some (record {
        task_state = append ts' (suc seq) (run_completed task_run_id (suc seq));
        event_state = es;
        succeeded = true;
        seq = suc seq;
      })
      else rest (next_instruction instruction status decision) ts' es

  -- The loop, with `left` attempts to go.
  unfoldable pub attempt_loop : ℕ → ℕ → ℕ → String → tasks.State → events.State → Option Attempts
  attempt_loop zero attempt seq instruction ts es =
      some (record { task_state = ts; event_state = es; succeeded = false; seq = seq })
  attempt_loop (suc left) attempt seq instruction ts es =
      let attempt_id = join task_run_id (join "-a" (show attempt)) in
      let ts' = append ts seq (attempt_started task_run_id attempt_id seq) in
      after_turn (attempt_loop left (suc attempt) (suc (suc seq))) attempt (suc seq) instruction ts'
        (send_turn (Session.new (join task_run_id (join "-s" (show attempt)))) (backends attempt)
          events es instruction none [])

  abbrev or_failed_run : TaskDefinition → Option TaskRun → TaskRun
  or_failed_run task none = record {
    task_run_id = task_run_id;
    task_id = task.task_id;
    status = failed;
    instruction = task.instruction;
    started_at = none;
    finished_at = none;
    attempt_count = 0;
  }
  or_failed_run task (some r) = r

  abbrev pub finished : TaskDefinition → ℕ → Option Attempts → Option TaskRun
  finished task max_attempts none = none
  finished task max_attempts (some a) =
      let ts =
        if a.succeeded
        then a.task_state
        else append a.task_state a.seq (
            run_failed task_run_id (join "exhausted " (join (show max_attempts) " attempts"))
              a.seq) in
      some (or_failed_run task (project_task_run (unwrapped (tasks.read_events ts task_run_id))))

  unfoldable pub run_task : tasks.State → events.State → TaskDefinition → ℕ → Option TaskRun
  unfolding attempt_loop project_task_run
  run_task ts es task max_attempts = finished task max_attempts (
      attempt_loop max_attempts 0 1 task.instruction
        (append ts 0 (run_created task_run_id task.task_id task.instruction 0)) es)
