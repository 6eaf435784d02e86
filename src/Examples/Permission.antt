-- ===== src/Examples/Permission.antt =====
-- Runs of the permission policy, the shell categories and the gate.
use meepo.Prelude.{List, ◌==◌, if◌then◌else◌, ◌≡◌, ◌⊎◌, refl, String, false, Option, none, some, []}
use meepo.Prelude.Words.{any_char}
use meepo.Prelude.Text.{join}
use meepo.Core.Decision.{PermissionDecision}
use meepo.Core.Permission.{PermissionMode, builtin_tool_category, policy_decision}
use meepo.Core.Permission.Shell.{Regexes, ToolCategory, categorize_bash, strip_leading_options}
use meepo.Core.Permission.Policy.{shell_policy, policy-categorize_bash}
use meepo.Core.Permission.Options.{starts_with_option, strip_leading_options-done}
use meepo.Core.Permission.Joined.{categorize_bash-join}
use meepo.Core.Interaction.{
  PermissionResolution, PermissionRequest, DefaultPermissionGate, PermissionVerdict, check,
}
use meepo.Core.Interaction.Gate.{shell_verdict, shell_asked, check-explore, check-shell}

-- regular expressions that never match
abbrev no_match : Regexes
no_match = record { is_match = λ p s. false; capture = λ p s. none }

-- arguments that are the command
abbrev command_of : String → String → Option String
command_of args key = if key == "command" then some args else none

abbrev gate_in : PermissionMode → DefaultPermissionGate
gate_in m = record {
  mode = m;
  prompter = λ request. record { decision = PermissionDecision.deny; remember_for_turn = false };
}

sudo_privileged : categorize_bash no_match "sudo ls" ≡ ToolCategory.privileged
unfolding categorize_bash any_char
sudo_privileged = refl

policy-categorize_bash_example :
    policy_decision PermissionMode.ask (categorize_bash no_match "sudo ls")
    ≡ shell_policy PermissionMode.ask
policy-categorize_bash_example = policy-categorize_bash PermissionMode.ask no_match "sudo ls"

categorize_bash-join_example :
    categorize_bash no_match (join "sudo ls" (join ";" "echo done")) ≡ ToolCategory.privileged
categorize_bash-join_example = categorize_bash-join no_match "sudo ls" "echo done" sudo_privileged

strip_leading_options-done_example :
    starts_with_option (strip_leading_options "-n 5 A=1 ls -l") ≡ false
strip_leading_options-done_example = strip_leading_options-done "-n 5 A=1 ls -l"

check-explore_example :
    ((check no_match command_of (gate_in PermissionMode.explore) "c1" "Write" "{}").1 ≡ [])
    × ((check no_match command_of (gate_in PermissionMode.explore) "c1" "Write" "{}").0.verdict
          ≡ PermissionVerdict.allow
        → ((check no_match command_of
              (gate_in PermissionMode.explore)
              "c1"
              "Write"
              "{}").0.request.category
            ≡ ToolCategory.read)
          ⊎ ((check no_match command_of
                (gate_in PermissionMode.explore)
                "c1"
                "Write"
                "{}").0.request.category
              ≡ ToolCategory.web_read))
check-explore_example =
    check-explore no_match command_of (gate_in PermissionMode.explore) "c1" "Write" "{}" refl

abbrev asked_check : PermissionResolution × List PermissionRequest
asked_check = check no_match command_of (gate_in PermissionMode.ask) "c1" "Bash" "sudo ls"

check-shell_example :
    (asked_check.0.verdict
      ≡ shell_verdict PermissionMode.ask
          ((gate_in PermissionMode.ask).prompter (asked_check.0.request)).decision)
    × (asked_check.1 ≡ shell_asked PermissionMode.ask (asked_check.0.request))
    × (asked_check.0.request.tool_call_id ≡ "c1")
    × (asked_check.0.request.tool_name ≡ "Bash")
    × (asked_check.0.request.summary ≡ "sudo ls")
unfolding builtin_tool_category
check-shell_example =
    check-shell no_match command_of (gate_in PermissionMode.ask) "c1" "Bash" "sudo ls" "sudo ls"
      refl refl
