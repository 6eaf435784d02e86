-- ===== src/Headless/Onward.antt =====
-- crates/meepo-headless/src/lib.rs: what the loop of `run_task` does behind an attempt, as one table.
use meepo.Prelude.{◌≡◌, refl, String, true, false, Option, none, some, ◌⊎◌, inl, inr}
use meepo.Runtime.Runner.{RunStatus}
use meepo.Headless.{
  TaskRunStatus, SelfCheckDecision, attempt_status, allows, next_instruction, completed,
}

-- What follows an attempt: nothing where a completed turn is let through, else the next instruction, which
-- is the gate's prompt where it asks for a repair of a completed turn, and else the same as before.
abbrev pub onward : String → RunStatus → SelfCheckDecision → Option String
onward instruction RunStatus.completed (SelfCheckDecision.allow_finalize r) = none
onward instruction RunStatus.completed (SelfCheckDecision.allow_after_bounded r) = none
onward instruction RunStatus.completed (SelfCheckDecision.repair r prompt) = some prompt
onward instruction RunStatus.aborted d = some instruction
onward instruction RunStatus.failed d = some instruction

abbrev pub Settles : String → RunStatus → SelfCheckDecision → SelfCheckDecision → Type 0
Settles i s asked d =
    ((allows (attempt_status s) d ≡ true) × (onward i s asked ≡ none))
    ⊎ ((allows (attempt_status s) d ≡ false)
        × (onward i s asked ≡ some (next_instruction i (attempt_status s) d)))

settled_completed : (i : String) (d : SelfCheckDecision) → Settles i RunStatus.completed d d
settled_completed i (SelfCheckDecision.allow_finalize r) = inl (refl, refl)
settled_completed i (SelfCheckDecision.allow_after_bounded r) = inl (refl, refl)
settled_completed i (SelfCheckDecision.repair r prompt) = inr (refl, refl)

pub settled :
    (i : String) (s : RunStatus) (g : TaskRunStatus → SelfCheckDecision)
    → Settles i s (g completed) (g (attempt_status s))
settled i RunStatus.completed g = settled_completed i (g completed)
settled i RunStatus.aborted g = inr (refl, refl)
settled i RunStatus.failed g = inr (refl, refl)
