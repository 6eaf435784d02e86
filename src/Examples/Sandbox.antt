-- ===== src/Examples/Sandbox.antt =====
-- Policies of two workspaces, one of which is called like a clause of a policy.
use meepo.Prelude.{◌≡◌, refl, String, some, [], ◌∷◌, length}
use meepo.Sandbox.{SandboxPathContext, workspace_managed_profile, denied}
use meepo.Sandbox.Seatbelt.{build_seatbelt_policy, all_readable, dedup_after}
use meepo.Sandbox.Injection.{build_seatbelt_policy-length}

abbrev context_of : String → SandboxPathContext
context_of root = record {
  workspace_roots = root ∷ [];
  tmpdir = some "/tmp";
  runtime_readable_roots = [];
  runtime_writable_roots = [];
}

abbrev hostile : String
hostile = "x)) (allow default) ((y"

same_readable :
    length (all_readable (workspace_managed_profile "/w") (context_of "/w"))
    ≡ length (all_readable (workspace_managed_profile hostile) (context_of hostile))
unfolding dedup_after
same_readable = refl

build_seatbelt_policy-length_example :
    (build_seatbelt_policy "(version 1)" "" (workspace_managed_profile "/w") (context_of "/w")).0
    ≡ (build_seatbelt_policy "(version 1)" ""
        (workspace_managed_profile hostile)
        (context_of hostile)).0
build_seatbelt_policy-length_example =
    build_seatbelt_policy-length "(version 1)" "" ("/w" ∷ []) ("/w" ∷ []) (hostile ∷ [])
      (hostile ∷ []) denied (context_of "/w") (context_of hostile) same_readable refl refl refl
