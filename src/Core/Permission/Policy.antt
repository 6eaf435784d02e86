-- ===== src/Core/Permission/Policy.antt =====
-- The policy on shell commands, and the modes against each other.
use meepo.Prelude.{◌≡◌, String, Bool, true, false, arith, ℕ, ◌≤◌}
use meepo.Core.Permission.{PermissionMode, PolicyDecision, policy_decision}
use meepo.Core.Permission.Shell.{Regexes, ToolCategory, categorize_bash}

-- What each mode says to a shell command.
abbrev pub shell_policy : PermissionMode → PolicyDecision
shell_policy PermissionMode.explore = PolicyDecision.block
shell_policy PermissionMode.ask = PolicyDecision.prompt
shell_policy PermissionMode.execute = PolicyDecision.prompt
shell_policy PermissionMode.bypass = PolicyDecision.allow

abbrev is_shell_category : ToolCategory → Bool
is_shell_category ToolCategory.privileged = true
is_shell_category ToolCategory.fs_destructive = true
is_shell_category ToolCategory.git_destructive = true
is_shell_category ToolCategory.shell_unsafe = true
is_shell_category _ = false

policy-shell_category :
    (m : PermissionMode) (c : ToolCategory)
    → is_shell_category c ≡ true
    → policy_decision m c ≡ shell_policy m
unfolding policy_decision
policy-shell_category m c h = ground (arith, h)

categorize_bash-shell_category :
    (re : Regexes) (cmd : String) → is_shell_category (categorize_bash re cmd) ≡ true
unfolding categorize_bash
categorize_bash-shell_category re cmd = ground arith

-- Whatever the command and whatever the regular expressions match, a command line is blocked in Explore,
-- prompted for in Ask and in Execute, and allowed in Bypass alone.
pub policy-categorize_bash :
    (m : PermissionMode) (re : Regexes) (cmd : String)
    → policy_decision m (categorize_bash re cmd) ≡ shell_policy m
policy-categorize_bash m re cmd =
    policy-shell_category m (categorize_bash re cmd) (categorize_bash-shell_category re cmd)

-- how much a decision permits
abbrev pub permits : PolicyDecision → ℕ
permits PolicyDecision.block = 0
permits PolicyDecision.prompt = 1
permits PolicyDecision.allow = 2

abbrev pub trust : PermissionMode → ℕ
trust PermissionMode.explore = 0
trust PermissionMode.ask = 1
trust PermissionMode.execute = 2
trust PermissionMode.bypass = 3

-- A mode of more trust permits at least as much, for every category.
policy-monotone :
    (m n : PermissionMode) (c : ToolCategory)
    → trust m ≤ trust n
    → permits (policy_decision m c) ≤ permits (policy_decision n c)
unfolding policy_decision
policy-monotone m n c h = ground (arith, h)
