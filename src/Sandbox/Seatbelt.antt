-- ===== src/Sandbox/Seatbelt.antt =====
-- crates/meepo-sandbox/src/macos.rs: the policy of a command and its argument vector. The two fixed
-- sections of a policy, and whether the backend is available, are parameters.
use meepo.Prelude.{
  ℕ, suc, String, Bool, not, Option, none, some, List, [], ◌∷◌, ◌++◌, if◌then◌else◌, ◌==◌, keep,
}
use meepo.Prelude.Text.{join, show, is_empty_text}
use meepo.Sandbox.{
  PermissionProfile, SandboxPathContext, SandboxType, SandboxCommand, SandboxTransformResult,
  SandboxBackend, managed, restricted, allowed, transformed, failed,
}

-- `join` of a slice of texts
abbrev pub join_with : String → List String → String
join_with sep [] = ""
join_with sep (x ∷ []) = x
join_with sep (x ∷ y ∷ ys) = let rest = join_with sep (y ∷ ys) in join x (join sep rest)

abbrev pub root_name : String → ℕ → String
root_name kind i = join kind (show i)

-- the clauses and the parameters of roots that are numbered from `i`
abbrev pub clauses : String → ℕ → List String → List String
clauses kind i [] = []
clauses kind i (r ∷ rs) =
    join "  (subpath (param \"" (join (root_name kind i) "\"))") ∷ clauses kind (suc i) rs

abbrev pub params : String → ℕ → List String → List (String × String)
params kind i [] = []
params kind i (r ∷ rs) = (root_name kind i, r) ∷ params kind (suc i) rs

abbrev pub section : String → String → List String → String
section opening kind [] = ""
section opening kind (r ∷ rs) = join opening (join (join_with "\n" (clauses kind 0 (r ∷ rs))) ")")

abbrev pub build_readable_roots : List String → String × List (String × String)
build_readable_roots rs =
    (section "(allow file-read*\n" "READABLE_ROOT_" rs, params "READABLE_ROOT_" 0 rs)

abbrev pub build_writable_roots : List String → String × List (String × String)
build_writable_roots rs =
    (section "(allow file-write*\n" "WRITABLE_ROOT_" rs, params "WRITABLE_ROOT_" 0 rs)

abbrev pub nonempty : List String → List String
nonempty xs = keep (λ x. not (is_empty_text x)) xs

-- a section is made only where there are roots
abbrev pub sections : String → String → List String → List String
sections opening kind [] = []
sections opening kind (r ∷ rs) = section opening kind (r ∷ rs) ∷ []

abbrev pub build_runtime_roots : SandboxPathContext → String × List (String × String)
build_runtime_roots ctx = (
  join_with "\n\n" (
      sections "(allow file-read* file-test-existence\n" "RUNTIME_READABLE_ROOT_"
        ctx.runtime_readable_roots
      ++ sections "(allow file-write*\n" "RUNTIME_WRITABLE_ROOT_" ctx.runtime_writable_roots),
  params "RUNTIME_READABLE_ROOT_" 0 ctx.runtime_readable_roots
      ++ params "RUNTIME_WRITABLE_ROOT_" 0 ctx.runtime_writable_roots,
)

abbrev pub build_network_policy : PermissionProfile → String
build_network_policy (managed f allowed) = "(allow network*)"
build_network_policy p = "(deny network*)"

abbrev pub roots_of : PermissionProfile → List String × List String
roots_of (managed (restricted r w) n) = (r, w)
roots_of p = ([], [])

-- `Vec::dedup`: of equal elements that follow one another, the first stays
unfoldable pub dedup_after : String → List String → List String
dedup_after x [] = []
dedup_after x (y ∷ ys) =
    let same = dedup_after x ys in
    let other = dedup_after y ys in if x == y then same else y ∷ other

abbrev dedup : List String → List String
dedup [] = []
dedup (x ∷ xs) = x ∷ dedup_after x xs

abbrev with_tmpdir : Option String → List String
with_tmpdir none = []
with_tmpdir (some t) = t ∷ []

abbrev pub all_readable : PermissionProfile → SandboxPathContext → List String
all_readable p ctx = dedup ((roots_of p).0 ++ ctx.workspace_roots ++ with_tmpdir ctx.tmpdir)

module _ (base_policy platform_defaults : String) where
  unfoldable pub build_seatbelt_policy :
      PermissionProfile → SandboxPathContext → String × List (String × String)
  unfolding dedup_after
  build_seatbelt_policy p ctx =
      let readable = build_readable_roots (all_readable p ctx) in
      let writable = build_writable_roots ((roots_of p).1) in
      let runtime = build_runtime_roots ctx in
      let dynamic =
        join_with "\n\n"
          (nonempty (readable.0 ∷ writable.0 ∷ runtime.0 ∷ build_network_policy p ∷ [])) in
      (
        join base_policy (join "\n\n" (join platform_defaults (join "\n\n" (join dynamic "\n")))),
        readable.1 ++ writable.1 ++ runtime.1,
      )

  abbrev pub definitions : List (String × String) → List String
  definitions [] = []
  definitions ((name, value) ∷ ps) = join "-D" (join name (join "=" value)) ∷ definitions ps

  unfoldable pub create_exec_args :
      PermissionProfile → SandboxPathContext → String → List String → List String
  unfolding build_seatbelt_policy
  create_exec_args p ctx program args =
      let built = build_seatbelt_policy p ctx in
      "/usr/bin/sandbox-exec" ∷ "-p" ∷ built.0 ∷ (definitions built.1 ++ "--" ∷ program ∷ args)

  abbrev pub confined : SandboxCommand → PermissionProfile → SandboxTransformResult
  confined command (managed (restricted r w) n) = transformed (record {
    argv = create_exec_args command.profile command.path_context command.program command.args;
    cwd = command.cwd;
    env = command.env;
    sandbox_type = SandboxType.macos_seatbelt;
  })
  confined command p =
      failed "invalid_profile" "macOS Seatbelt backend only accepts managed restricted profiles."

  abbrev pub macos_seatbelt_backend : Bool → SandboxBackend
  macos_seatbelt_backend available = record {
    sandbox_type = SandboxType.macos_seatbelt;
    is_available = available;
    transform = λ command. confined command command.profile;
  }
