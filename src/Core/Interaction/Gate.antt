-- ===== src/Core/Interaction/Gate.antt =====
-- What the gate lets through, by mode.
use meepo.Prelude.{◌≡◌, ◌⊎◌, refl, ap, ◌∙◌, String, Option, some, List, [], ◌∷◌, arith}
use meepo.Core.Permission.{
  PermissionMode, builtin_tool_category, classify_tool_use, policy_decision,
}
use meepo.Core.Permission.Policy.{shell_policy, policy-categorize_bash}
use meepo.Core.Permission.Shell.{Regexes, ToolCategory, categorize_bash}
use meepo.Core.Decision.{PermissionDecision}
use meepo.Core.Interaction.{
  DefaultPermissionGate, PermissionVerdict, PermissionRequest, PermissionAnswer, check, rule,
  request_of, summarize_call, verdict_of,
}

explored :
    (prompter : PermissionRequest → PermissionAnswer) (request : PermissionRequest)
    (c : ToolCategory)
    → ((rule prompter request (policy_decision PermissionMode.explore c)).1 ≡ [])
      × ((rule prompter request (policy_decision PermissionMode.explore c)).0
            ≡ PermissionVerdict.allow
          → (c ≡ ToolCategory.read) ⊎ (c ≡ ToolCategory.web_read))
unfolding policy_decision
explored prompter request c = (ground arith, λ h. ground (arith, h))

-- the verdict on a command line, in each mode and for each decision of the prompter
abbrev pub shell_verdict : PermissionMode → PermissionDecision → PermissionVerdict
shell_verdict PermissionMode.explore d = PermissionVerdict.deny
shell_verdict PermissionMode.bypass d = PermissionVerdict.allow
shell_verdict PermissionMode.ask PermissionDecision.allow = PermissionVerdict.allow
shell_verdict PermissionMode.ask PermissionDecision.deny = PermissionVerdict.deny
shell_verdict PermissionMode.execute PermissionDecision.allow = PermissionVerdict.allow
shell_verdict PermissionMode.execute PermissionDecision.deny = PermissionVerdict.deny

-- the requests that each mode puts to the prompter
abbrev pub shell_asked : PermissionMode → PermissionRequest → List PermissionRequest
shell_asked PermissionMode.explore request = []
shell_asked PermissionMode.bypass request = []
shell_asked PermissionMode.ask request = request ∷ []
shell_asked PermissionMode.execute request = request ∷ []

verdict_of-ask : (d : PermissionDecision) → verdict_of d ≡ shell_verdict PermissionMode.ask d
verdict_of-ask PermissionDecision.allow = refl
verdict_of-ask PermissionDecision.deny = refl

verdict_of-execute :
    (d : PermissionDecision) → verdict_of d ≡ shell_verdict PermissionMode.execute d
verdict_of-execute PermissionDecision.allow = refl
verdict_of-execute PermissionDecision.deny = refl

rule-shell :
    (prompter : PermissionRequest → PermissionAnswer) (request : PermissionRequest)
    (m : PermissionMode)
    → rule prompter request (shell_policy m)
      ≡ (shell_verdict m (prompter request).decision, shell_asked m request)
rule-shell prompter request PermissionMode.explore = refl
rule-shell prompter request PermissionMode.bypass = refl
rule-shell prompter request PermissionMode.ask =
    ap (λ v. (v, request ∷ [])) (verdict_of-ask (prompter request).decision)
rule-shell prompter request PermissionMode.execute =
    ap (λ v. (v, request ∷ [])) (verdict_of-execute (prompter request).decision)

module _ {V : Type 0} (re : Regexes) (get_str : V → String → Option String)
    (gate : DefaultPermissionGate) (tool_call_id tool_name : String) (args : V) where
  -- In Explore the prompter is never asked, and what is allowed is a read of files or of the web.
  pub check-explore :
      gate.mode ≡ PermissionMode.explore
      → let (r, asked) = check re get_str gate tool_call_id tool_name args in
        (asked ≡ [])
        × (r.verdict ≡ PermissionVerdict.allow
            → (r.request.category ≡ ToolCategory.read)
              ⊎ (r.request.category ≡ ToolCategory.web_read))
  unfolding check policy_decision
  check-explore h = rw h (
      explored gate.prompter (request_of re get_str tool_call_id tool_name args)
        (classify_tool_use re get_str tool_name args))

  classified :
      (cmd : String)
      → builtin_tool_category tool_name ≡ some ToolCategory.shell_unsafe
      → get_str args "command" ≡ some cmd
      → classify_tool_use re get_str tool_name args ≡ categorize_bash re cmd
  unfolding classify_tool_use
  classified cmd b c = rw (b, c) refl

  summary-request_of :
      (cmd : String)
      → get_str args "command" ≡ some cmd
      → (request_of re get_str tool_call_id tool_name args).summary ≡ cmd
  unfolding summarize_call
  summary-request_of cmd c = rw c refl

  -- A command line of a shell tool is judged by the mode, whatever it is. Explore denies it and Bypass allows
  -- it, and neither asks; Ask and Execute put one request to the prompter, and allow it just if the
  -- prompter decides to allow. The request names the call and the tool, and shows the command line.
  pub check-shell :
      (cmd : String)
      → builtin_tool_category tool_name ≡ some ToolCategory.shell_unsafe
      → get_str args "command" ≡ some cmd
      → let (r, asked) = check re get_str gate tool_call_id tool_name args in
        (r.verdict ≡ shell_verdict gate.mode (gate.prompter r.request).decision)
        × (asked ≡ shell_asked gate.mode r.request)
        × (r.request.tool_call_id ≡ tool_call_id)
        × (r.request.tool_name ≡ tool_name)
        × (r.request.summary ≡ cmd)
  unfolding check
  check-shell cmd b c =
      let request = request_of re get_str tool_call_id tool_name args in
      let e =
        ap (rule gate.prompter request) (
          ap (policy_decision gate.mode) (classified cmd b c)
          ∙ policy-categorize_bash gate.mode re cmd)
        ∙ rule-shell gate.prompter request gate.mode in
      (ap (λ p. p.0) e, ap (λ p. p.1) e, refl, refl, summary-request_of cmd c)
