-- ===== src/Core/Interaction.antt =====
-- crates/meepo-core/src/interaction.rs: the permission gate. The prompter is a function from requests to
-- answers; `check` also returns the requests that it put to the prompter, in order.
pub mod Gate
use meepo.Prelude.{String, Bool, true, Option, none, some, List, [], ◌∷◌}
use meepo.Prelude.Text.{join}
use meepo.Core.Decision.{PermissionDecision}
use meepo.Core.Permission.{PermissionMode, PolicyDecision, classify_tool_use, policy_decision}
use meepo.Core.Permission.Shell.{Regexes, ToolCategory}

pub data PermissionReason : Type 0 where
  shell_dangerous file_write fs_destructive git_destructive privileged custom : PermissionReason

unfoldable pub for_category : ToolCategory → PermissionReason
for_category ToolCategory.shell_unsafe = shell_dangerous
for_category ToolCategory.file_write = PermissionReason.file_write
for_category ToolCategory.fs_destructive = PermissionReason.fs_destructive
for_category ToolCategory.git_destructive = PermissionReason.git_destructive
for_category ToolCategory.privileged = PermissionReason.privileged
for_category _ = custom

pub record PermissionRequest : Type 0 where
  pub tool_call_id : String
  pub tool_name : String
  pub category : ToolCategory
  pub reason : PermissionReason
  pub summary : String
  pub remember_for_turn_allowed : Bool

pub record PermissionAnswer : Type 0 where
  pub decision : PermissionDecision
  pub remember_for_turn : Bool

pub data PermissionVerdict : Type 0 where
  allow deny : PermissionVerdict

pub record PermissionResolution : Type 0 where
  pub verdict : PermissionVerdict
  pub request : PermissionRequest

pub record DefaultPermissionGate : Type 0 where
  pub mode : PermissionMode
  pub prompter : PermissionRequest → PermissionAnswer

abbrev summary_by : String → Option String → Option String → String
summary_by tool_name (some cmd) path = cmd
summary_by tool_name none (some path) = join tool_name (join " " path)
summary_by tool_name none none = tool_name

unfoldable pub summarize_call : {V : Type 0} → (V → String → Option String) → String → V → String
summarize_call get_str tool_name args =
    summary_by tool_name (get_str args "command") (get_str args "path")

abbrev pub verdict_of : PermissionDecision → PermissionVerdict
verdict_of PermissionDecision.allow = PermissionVerdict.allow
verdict_of PermissionDecision.deny = deny

-- the match on the policy: the verdict, and the requests that were put to the prompter
abbrev pub rule :
    (PermissionRequest → PermissionAnswer)
    → PermissionRequest
    → PolicyDecision
    → PermissionVerdict × List PermissionRequest
rule prompter request PolicyDecision.allow = (PermissionVerdict.allow, [])
rule prompter request PolicyDecision.block = (deny, [])
rule prompter request PolicyDecision.prompt = (verdict_of (prompter request).decision, request ∷ [])

abbrev pub request_of :
    {V : Type 0} → Regexes → (V → String → Option String) → String → String → V → PermissionRequest
request_of re get_str tool_call_id tool_name args =
    let category = classify_tool_use re get_str tool_name args in
    record {
      tool_call_id = tool_call_id;
      tool_name = tool_name;
      category = category;
      reason = for_category category;
      summary = summarize_call get_str tool_name args;
      remember_for_turn_allowed = true;
    }

unfoldable pub check :
    {V : Type 0}
    → Regexes
    → (V → String → Option String)
    → DefaultPermissionGate
    → String
    → String
    → V
    → PermissionResolution × List PermissionRequest
unfolding for_category summarize_call
check re get_str gate tool_call_id tool_name args =
    let request = request_of re get_str tool_call_id tool_name args in
    let (verdict, asked) =
      rule gate.prompter request (policy_decision gate.mode request.category) in
    (record { verdict = verdict; request = request }, asked)
