-- ===== src/Headless/Ledger.antt =====
-- The ledger of a task run against the run that it describes: what `run_task` projects from its events
-- is what the attempts have come to.
use meepo.Prelude.{
  ℕ, suc, ◌+◌, ◌≡◌, refl, sym, subst, ap, ◌∙◌, String, Bool, true, false, Option, none, some, List,
  [], ◌∷◌, ◌++◌, ok, inl, inr, arith, ◌≤◌,
}
use meepo.Prelude.{zero}
use meepo.Prelude.Text.{join, show}
use meepo.Core.Store.{RuntimeEventStore}
use meepo.Runtime.Runner.{AgentBackend}
use meepo.Runtime.Session.{SessionManager, TurnResult, send_turn, send_turn_streaming, is_running}
use meepo.Runtime.Session
use meepo.Runtime.Session.Returns.{returned, send_turn_streaming-returned}
use meepo.Headless.{
  TaskRunStatus, TaskRun, TaskEvent, TaskDefinition, TaskRunStore, SelfCheckDecision, Attempts,
  project_event, project_from, project_task_run, attempt_status, attempt_loop, append, finished,
  run_task, completed, failed, created, run_created, attempt_started, attempt_completed,
  run_completed, run_failed,
}
use meepo.Headless.Onward.{onward, settled}

-- What `TaskRunStore` promises: of a run whose sequence numbers are all below `n`, an append at `n` succeeds
-- and is read back behind the events that were there.
pub record TaskRunStoreLaws (tasks : TaskRunStore) : Type 1 where
  -- every sequence number of the run is below the number
  pub Below : tasks.State → String → ℕ → Type 0
  pub append-below :
      (ts : tasks.State) (id : String) (n : ℕ) (e : TaskEvent)
      → Below ts id n
      → Below (tasks.append_event ts id n e).0 id (suc n)
  pub read-append :
      (ts : tasks.State) (id : String) (n : ℕ) (e : TaskEvent) (es : List TaskEvent)
      → Below ts id n
      → tasks.read_events ts id ≡ ok es
      → tasks.read_events (tasks.append_event ts id n e).0 id ≡ ok (es ++ e ∷ [])

abbrev Fold : Type 0
Fold = Option TaskRun × ℕ

abbrev project_all : List TaskEvent → Fold → Fold
project_all [] s = s
project_all (e ∷ es) s = project_all es (project_event e s.0 s.1)

project_all-append :
    (xs ys : List TaskEvent) (s : Fold)
    → project_all (xs ++ ys) s ≡ project_all ys (project_all xs s)
project_all-append [] ys s = refl
project_all-append (x ∷ xs) ys s = project_all-append xs ys _

project_from-all :
    (es : List TaskEvent) (run : Option TaskRun) (n : ℕ)
    → project_from es run n ≡ (project_all es (run, n)).0
unfolding project_from
project_from-all [] run n = refl
project_from-all (e ∷ es) run n = project_from-all es _ _

true-false : true ≡ false → ⊥
true-false h = cc h

module _ {V : Type 0} (tasks : TaskRunStore) (events : RuntimeEventStore V)
    (gate : ℕ → TaskRunStatus → AgentBackend V → SelfCheckDecision) (backends : ℕ → AgentBackend V)
    (task_run_id : String) where
  -- the turn of an attempt, which always returns
  abbrev pub turn : ℕ → String → events.State → TurnResult V × SessionManager V × events.State
  turn attempt instruction es =
      returned (Session.new (join task_run_id (join "-s" (show attempt)))) (backends attempt)
        instruction none [] events es

  abbrev pub status_of : ℕ → String → events.State → TaskRunStatus
  status_of attempt instruction es = attempt_status ((turn attempt instruction es).0.status)

  -- Attempts without a ledger: whether one passes, and how many there are.
  abbrev pub outcome : ℕ → ℕ → String → events.State → Bool × ℕ
  outcome zero attempt instruction es = (false, attempt)
  outcome (suc left) attempt instruction es =
      let (result, session, es') = turn attempt instruction es in
      elim (onward instruction result.status (gate attempt completed (backends attempt))) [
        | none ↦ (true, suc attempt)
        | some next ↦ outcome left (suc attempt) next es'
      ]

  abbrev next_of : ℕ → String → events.State → Option String
  next_of attempt instruction es =
      onward instruction ((turn attempt instruction es).0.status)
        (gate attempt completed (backends attempt))

  outcome-passed :
      (left attempt : ℕ) (instruction : String) (es : events.State)
      → next_of attempt instruction es ≡ none
      → outcome (suc left) attempt instruction es ≡ (true, suc attempt)
  outcome-passed left attempt instruction es k = rw (outcome, k) refl

  outcome-next :
      (left attempt : ℕ) (instruction : String) (es : events.State) (next : String)
      → next_of attempt instruction es ≡ some next
      → outcome (suc left) attempt instruction es
        ≡ outcome left (suc attempt) next (turn attempt instruction es).2
  outcome-next left attempt instruction es next k = rw (outcome, k) refl

  outcome-bound :
      (left attempt : ℕ) (instruction : String) (es : events.State)
      → (outcome left attempt instruction es).1 ≤ attempt + left
  outcome-bound zero attempt instruction es = omega arith
  outcome-bound (suc left) attempt instruction es =
      elim (settled instruction ((turn attempt instruction es).0.status)
        (λ s. gate attempt s (backends attempt))) [
          | inl (a, k) ↦ rw (outcome-passed left attempt instruction es k) (omega arith)
          | inr (a, k) ↦
              rw (outcome-next left attempt instruction es _ k)
                (omega (arith, outcome-bound left (suc attempt) _ _))
        ]

  send_turn-turn :
      (attempt : ℕ) (instruction : String) (es : events.State)
      → send_turn
          (Session.new (join task_run_id (join "-s" (show attempt))))
          (backends attempt)
          events
          es
          instruction
          none
          []
        ≡ some (turn attempt instruction es)
  unfolding send_turn Session.new is_running
  send_turn-turn attempt instruction es =
      send_turn_streaming-returned (Session.new (join task_run_id (join "-s" (show attempt))))
        (backends attempt) instruction none [] events es refl

  module _ (laws : TaskRunStoreLaws tasks) (task : TaskDefinition) where
    abbrev pub run_of : TaskRunStatus → Option ℕ → ℕ → TaskRun
    run_of status finished_at n = record {
      task_run_id = task_run_id;
      task_id = task.task_id;
      status = status;
      instruction = task.instruction;
      started_at = some 0;
      finished_at = finished_at;
      attempt_count = n;
    }

    -- what the ledger of the run tells, with every sequence number below `seq`
    record Folds (ts : tasks.State) (seq : ℕ) (f : Fold) : Type 0 where
      read : List TaskEvent
      reads : tasks.read_events ts task_run_id ≡ ok read
      below : laws.Below ts task_run_id seq
      folds : project_all read (none, 0) ≡ f

    -- the ledger tells of a run that goes on, with `n` attempts
    abbrev Open : ℕ → ℕ → tasks.State → Type 0
    Open n seq ts = (s : TaskRunStatus) × Folds ts seq (some (run_of s none n), n)

    abbrev Told : Bool → ℕ → ℕ → tasks.State → Type 0
    Told true n seq ts =
        (next : ℕ) × Folds ts next (some (run_of completed (some (suc (n + n))) n), n)
    Told false n seq ts = Open n seq ts

    record Ran (o : Option (Attempts tasks events gate backends task_run_id)) (d : Bool × ℕ)
        : Type 0 where
      attempts : Attempts tasks events gate backends task_run_id
      ran : o ≡ some attempts
      flag : attempts.succeeded ≡ d.0
      number : attempts.succeeded ≡ false → attempts.seq ≡ suc (d.1 + d.1)
      told : Told d.0 d.1 attempts.seq attempts.task_state

    folded-event :
        (ts : tasks.State) (seq : ℕ) (f : Fold) (e : TaskEvent)
        → Folds ts seq f
        → Folds
            (append tasks events gate backends task_run_id ts seq e)
            (suc seq)
            (project_event e f.0 f.1)
    folded-event ts seq f e h = record {
      read = h.read ++ e ∷ [];
      reads = laws.read-append ts task_run_id seq e h.read h.below h.reads;
      below = laws.append-below ts task_run_id seq e h.below;
      folds =
          project_all-append h.read (e ∷ []) (none, 0) ∙ ap (λ f. project_event e f.0 f.1) h.folds;
    }

    loop-Ran :
        (left attempt seq : ℕ) (instruction : String) (ts : tasks.State) (es : events.State)
        → seq ≡ suc (attempt + attempt)
        → Open attempt seq ts
        → Ran
            (attempt_loop tasks events gate backends task_run_id left attempt seq instruction ts es)
            (outcome left attempt instruction es)
    unfolding attempt_loop
    loop-Ran zero attempt seq instruction ts es q o = record {
      attempts = record { task_state = ts; event_state = es; succeeded = false; seq = seq };
      ran = refl;
      flag = refl;
      number = λ f. q;
      told = o;
    }
    loop-Ran (suc left) attempt seq instruction ts es q (s, o) =
        let aid = join task_run_id (join "-a" (show attempt)) in
        let push = append tasks events gate backends task_run_id in
        let ts1 = push ts seq (attempt_started task_run_id aid seq) in
        let status = status_of attempt instruction es in
        let ts2 = push ts1 (suc seq) (attempt_completed task_run_id aid status (suc seq)) in
        let f1 = folded-event ts seq _ (attempt_started task_run_id aid seq) o in
        let f2 =
          folded-event ts1 (suc seq) _ (attempt_completed task_run_id aid status (suc seq)) f1 in
        let f3 =
          folded-event ts2 (suc (suc seq)) _ (run_completed task_run_id (suc (suc seq))) f2 in
        let e : suc (suc seq) ≡ suc (suc attempt + suc attempt) = omega (arith, q) in
        rw (send_turn-turn attempt instruction es)
          (elim (settled instruction ((turn attempt instruction es).0.status)
            (λ s. gate attempt s (backends attempt))) [
              | inl (a, k) ↦ rw a (
                  subst (Ran _) (sym (outcome-passed left attempt instruction es k)) (record {
                    attempts = record {
                      task_state =
                          push ts2 (suc (suc seq)) (run_completed task_run_id (suc (suc seq)));
                      event_state = (turn attempt instruction es).2;
                      succeeded = true;
                      seq = suc (suc seq);
                    };
                    ran = refl;
                    flag = refl;
                    number = λ f. absurd (true-false f);
                    told = (
                      suc (suc (suc seq)),
                      record {
                        read = f3.read;
                        reads = f3.reads;
                        below = f3.below;
                        folds =
                            f3.folds
                            ∙ ap
                                (λ m. (some (run_of completed (some m) (suc attempt)), suc attempt))
                                e;
                      },
                    );
                  }))
              | inr (a, k) ↦ rw a (
                  subst (Ran _) (sym (outcome-next left attempt instruction es _ k))
                    (loop-Ran left (suc attempt) (suc (suc seq)) _ ts2 _ e (status, f2)))
            ])

    abbrev final_status : Bool → TaskRunStatus
    final_status true = completed
    final_status false = failed

    -- the run that the attempts have come to
    abbrev pub expected : Bool × ℕ → TaskRun
    expected d = run_of (final_status d.0) (some (suc (d.1 + d.1))) d.1

    finish :
        (max_attempts : ℕ) (a : Attempts tasks events gate backends task_run_id) (b : Bool) (n : ℕ)
        → a.succeeded ≡ b
        → (a.succeeded ≡ false → a.seq ≡ suc (n + n))
        → Told b n a.seq a.task_state
        → finished tasks events gate backends task_run_id task max_attempts (some a)
          ≡ some (expected (b, n))
    unfolding project_task_run
    finish max_attempts a true n f s (next, t) =
        rw (f, t.reads, project_from-all t.read none 0, t.folds) refl
    finish max_attempts a false n f s (st, o) =
        let e =
          run_failed task_run_id (join "exhausted " (join (show max_attempts) " attempts")) a.seq in
        let t = folded-event a.task_state a.seq _ e o in
        rw (f, t.reads, project_from-all t.read none 0, t.folds, s f) refl

    -- Let the store keep its laws. A task run on an id that has no events returns, and the run that it projects
    -- from its ledger is: completed if an attempt passes, which is a completed turn that the gate lets
    -- through, and failed otherwise; begun and finished, with as many attempts as were made, which are
    -- at most `max_attempts`. An attempt that does not pass is followed by one with the prompt of the
    -- gate, if the turn completed and the gate asks for a repair, and with the same instruction if not.
    pub run_task-expected :
        (ts : tasks.State) (es : events.State) (max_attempts : ℕ)
        → tasks.read_events ts task_run_id ≡ ok []
        → laws.Below ts task_run_id 0
        → let d = outcome max_attempts 0 task.instruction es in
          (run_task tasks events gate backends task_run_id ts es task max_attempts
            ≡ some (expected d))
          × (d.1 ≤ max_attempts)
    unfolding run_task project_task_run
    run_task-expected ts es max_attempts h b =
        let e = run_created task_run_id task.task_id task.instruction 0 in
        let f0 =
          folded-event ts 0 (none, 0) e
            (record { read = []; reads = h; below = b; folds = refl }) in
        let r =
          loop-Ran max_attempts 0 1 task.instruction
            (append tasks events gate backends task_run_id ts 0 e) es (omega arith) (created, f0) in
        (
          rw r.ran (
              finish max_attempts r.attempts ((outcome max_attempts 0 task.instruction es).0)
                ((outcome max_attempts 0 task.instruction es).1) r.flag r.number r.told),
          (let b = outcome-bound max_attempts 0 task.instruction es in omega (arith, b)),
        )
