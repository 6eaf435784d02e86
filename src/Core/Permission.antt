-- ===== src/Core/Permission.antt =====
-- crates/meepo-core/src/permission.rs: the categories of tools and the policy. A regular expression is
-- its text, matched by the parameters of `Regexes`; `get_str` reads a text member of a JSON object.
pub mod Shell
pub mod Policy
pub mod Options
pub mod Joined
use meepo.Prelude.{
  String, Bool, true, false, ◌||◌, Option, none, some, List, [], ◌∷◌, any, ◌==◌, if◌then◌else◌,
}
use meepo.Core.Permission.Shell.{Regexes, ToolCategory, categorize_bash}

pub data PermissionMode : Type 0 where
  explore ask execute bypass : PermissionMode

pub data PolicyDecision : Type 0 where
  allow prompt block : PolicyDecision

abbrev names : List String → String → Bool
names ns n = any (λ m. m == n) ns

unfoldable pub builtin_tool_category : String → Option ToolCategory
builtin_tool_category n =
    if names ("read_file" ∷ "Read" ∷ "grep" ∷ "Grep" ∷ "glob" ∷ "Glob" ∷ "list_dir" ∷ []) n
    then some ToolCategory.read
    else if names ("web_fetch" ∷ "WebFetch" ∷ "web_search" ∷ "WebSearch" ∷ []) n
    then some ToolCategory.web_read
    else if names ("write_file" ∷ "Write" ∷ "edit" ∷ "Edit" ∷ "multi_edit" ∷ "MultiEdit" ∷ []) n
    then some ToolCategory.file_write
    else if names ("bash" ∷ "Bash" ∷ []) n
    then some ToolCategory.shell_unsafe
    else none

-- the refinement of a shell call by its command
abbrev pub refine : Regexes → Option String → ToolCategory → ToolCategory
refine re (some cmd) ToolCategory.shell_unsafe = categorize_bash re cmd
refine re _ c = c

abbrev or_custom : Option ToolCategory → ToolCategory
or_custom none = ToolCategory.custom_tool
or_custom (some c) = c

unfoldable pub classify_tool_use :
    {V : Type 0} → Regexes → (V → String → Option String) → String → V → ToolCategory
unfolding builtin_tool_category
classify_tool_use re get_str tool_name args =
    refine re (get_str args "command") (or_custom (builtin_tool_category tool_name))

unfoldable pub policy_decision : PermissionMode → ToolCategory → PolicyDecision
policy_decision bypass c = allow
policy_decision explore ToolCategory.read = allow
policy_decision explore ToolCategory.web_read = allow
policy_decision explore _ = block
policy_decision ask ToolCategory.read = allow
policy_decision ask ToolCategory.web_read = allow
policy_decision ask _ = prompt
policy_decision execute ToolCategory.read = allow
policy_decision execute ToolCategory.web_read = allow
policy_decision execute ToolCategory.file_write = allow
policy_decision execute _ = prompt
