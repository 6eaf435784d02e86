-- ===== src/Sandbox.antt =====
-- crates/meepo-sandbox/src/profile.rs and manager.rs: what a command may access, and the choice of the
-- backend that confines it.
pub mod Seatbelt
pub mod Injection
use meepo.Prelude.{
  String, Bool, true, false, not, ◌||◌, Option, none, some, List, [], ◌∷◌, if◌then◌else◌,
}

pub data FileSystemPolicy : Type 0 where
  -- readable_roots, writable_roots
  restricted : List String → List String → FileSystemPolicy
  unrestricted : FileSystemPolicy

pub data NetworkPolicy : Type 0 where
  denied allowed : NetworkPolicy

pub data PermissionProfile : Type 0 where
  managed : FileSystemPolicy → NetworkPolicy → PermissionProfile
  unrestricted disabled : PermissionProfile

pub record SandboxPathContext : Type 0 where
  pub workspace_roots : List String
  pub tmpdir : Option String
  pub runtime_readable_roots : List String
  pub runtime_writable_roots : List String

abbrev is_restricted : FileSystemPolicy → Bool
is_restricted (restricted r w) = true
is_restricted f = false

abbrev is_denied : NetworkPolicy → Bool
is_denied denied = true
is_denied allowed = false

unfoldable pub requires_sandbox : PermissionProfile → Bool
requires_sandbox (managed file_system network) = is_restricted file_system || is_denied network
requires_sandbox p = false

abbrev pub workspace_managed_profile : String → PermissionProfile
workspace_managed_profile root = managed (restricted (root ∷ []) (root ∷ [])) denied

pub data SandboxType : Type 0 where
  no_sandbox macos_seatbelt linux : SandboxType

pub record SandboxCommand : Type 0 where
  pub program : String
  pub args : List String
  pub cwd : String
  pub env : List (String × String)
  pub profile : PermissionProfile
  pub path_context : SandboxPathContext

pub record SandboxExecRequest : Type 0 where
  pub argv : List String
  pub cwd : String
  pub env : List (String × String)
  pub sandbox_type : SandboxType

pub data SandboxTransformResult : Type 0 where
  transformed : SandboxExecRequest → SandboxTransformResult
  -- reason, message
  failed : String → String → SandboxTransformResult

pub record SandboxBackend : Type 0 where
  pub sandbox_type : SandboxType
  pub is_available : Bool
  pub transform : SandboxCommand → SandboxTransformResult

unfoldable pub find_available : List SandboxBackend → Option SandboxBackend
find_available [] = none
find_available (b ∷ bs) = let rest = find_available bs in if b.is_available then some b else rest

abbrev pub delegated : SandboxCommand → Option SandboxBackend → SandboxTransformResult
delegated command (some b) = b.transform command
delegated command none =
    failed "backend_not_available" "Sandbox is required but no platform backend is available."

-- `SandboxManager::transform`, on the backends in the order of their registration
unfoldable pub transform : List SandboxBackend → SandboxCommand → SandboxTransformResult
unfolding requires_sandbox find_available
transform backends command =
    if not (requires_sandbox command.profile)
    then transformed (record {
      argv = command.program ∷ command.args;
      cwd = command.cwd;
      env = command.env;
      sandbox_type = no_sandbox;
    })
    else delegated command (find_available backends)
