-- ===== src/Examples/Headless.antt =====
-- A task run over the in-memory stores, with the sample's backend and the default gate.
use meepo.Prelude.{
  ℕ, ◌≡◌, refl, ap, ok, err, Result, String, Bool, some, List, [], ◌∷◌, ◌++◌, eq_refl, ◌≤◌,
}
use meepo.Prelude.Dict.{get, get-insert}
use meepo.Core.Store
use meepo.Storage.{StoreError}
use meepo.Runtime.Runner.{AgentBackend}
use meepo.Examples.{sample_backend}
use meepo.Examples.Core.{empty_store}
use meepo.Headless.{
  TaskDefinition, TaskEvent, in_memory_tasks, append_task_event, read_task_events,
  default_self_check, run_task,
}
use meepo.Headless.Ledger.{TaskRunStoreLaws, outcome, expected, run_task-expected}

abbrev appended :
    TaskEvent → Result (List TaskEvent) StoreError → Result (List TaskEvent) StoreError
appended e (ok es) = ok (es ++ e ∷ [])
appended e (err x) = err x

read-append_task :
    (events : List (String × List TaskEvent)) (id : String) (n : ℕ) (e : TaskEvent)
    (es : List TaskEvent)
    → in_memory_tasks.read_events events id ≡ ok es
    → in_memory_tasks.read_events ((in_memory_tasks.append_event events id n e).0) id
      ≡ ok (es ++ e ∷ [])
unfolding read_task_events append_task_event
read-append_task events id n e es h = rw (get-insert events id id _, eq_refl id) (ap (appended e) h)

abbrev task_laws : TaskRunStoreLaws in_memory_tasks
task_laws = record {
  Below = λ ts id n. Unit;
  append-below = λ ts id n e b. tt;
  read-append = λ ts id n e es b h. read-append_task ts id n e es h;
}

abbrev sample_task : TaskDefinition
sample_task = record { task_id = "t"; instruction = "read it"; workspace_dir = "/" }

abbrev same_backend : ℕ → AgentBackend String
same_backend attempt = sample_backend

abbrev sample_outcome : Bool × ℕ
sample_outcome =
    outcome in_memory_tasks (Store.in_memory String) default_self_check same_backend "run" 3 0
      "read it" empty_store

run_task-expected_example :
    (run_task in_memory_tasks
        (Store.in_memory String)
        default_self_check
        same_backend
        "run"
        []
        empty_store
        sample_task
        3
      ≡ some (
          expected in_memory_tasks
            (Store.in_memory String)
            default_self_check
            same_backend
            "run"
            task_laws
            sample_task
            sample_outcome))
    × (sample_outcome.1 ≤ 3)
unfolding read_task_events get
run_task-expected_example =
    run_task-expected in_memory_tasks (Store.in_memory String) default_self_check same_backend "run"
      task_laws sample_task [] empty_store 3 refl tt
