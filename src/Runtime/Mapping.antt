-- ===== src/Runtime/Mapping.antt =====
-- crates/meepo-runtime/src/map_session_event.rs: backend events to canonical runtime events. `V` is
-- `serde_json::Value`, and `string_value` its variant `Value::String`.
pub mod Lanes
use meepo.Prelude.{String, Bool, true, Option, none, some}
use meepo.Prelude.Int.{ℤ}
use meepo.Core.Event.{
  Role, Author, Status, Content, RuntimeEvent, RuntimeEventActions, RuntimeEventRefs, ToolDispatch,
  default_actions, default_refs, tool_boundary_protocol_v1,
}
use meepo.Core.SessionEvent.{SessionEvent}

pub record InvocationContext : Type 0 where
  pub session_id : String
  pub run_id : String
  pub invocation_id : String
  pub turn_id : String

abbrev from_provider : String → Option RuntimeEventRefs
from_provider m = some (record default_refs { provider_event_id = some m })

module _ {V : Type 0} where
  -- the identity and the timestamp that every variant carries
  unfoldable pub base : SessionEvent V → String × String × ℤ
  base (SessionEvent.text_delta i t ts m o x) = (i, t, ts)
  base (SessionEvent.text_complete i t ts m x p) = (i, t, ts)
  base (SessionEvent.thinking_delta i t ts m x) = (i, t, ts)
  base (SessionEvent.thinking_complete i t ts m x g) = (i, t, ts)
  base (SessionEvent.tool_call i t ts c n a) = (i, t, ts)
  base (SessionEvent.tool_result i t ts c n x e) = (i, t, ts)
  base (SessionEvent.tool_dispatch i t ts o c n h m) = (i, t, ts)
  base (SessionEvent.complete i t ts r) = (i, t, ts)
  base (SessionEvent.error i t ts b m c r d) = (i, t, ts)
  base (SessionEvent.abort i t ts r) = (i, t, ts)

  unfoldable pub skeleton : InvocationContext → SessionEvent V → RuntimeEvent V
  unfolding base
  skeleton ctx event = record {
    session_id = ctx.session_id;
    invocation_id = ctx.invocation_id;
    run_id = ctx.run_id;
    turn_id = (base event).1;
    branch = none;
    id = (base event).0;
    ts = (base event).2;
    role = Role.model;
    author = Author.agent;
    origin = none;
    model_visibility = none;
    status = none;
    content = none;
    actions = none;
    refs = none;
    partial = none;
  }

  abbrev ends_invocation : Option (RuntimeEventActions V)
  ends_invocation = some (record default_actions { end_invocation = some true })

  -- the arms of the match, over the skeleton `ev`
  abbrev fill : (String → V) → SessionEvent V → RuntimeEvent V → RuntimeEvent V
  fill string_value (SessionEvent.text_delta i t ts m o x) ev = record ev {
    partial = some true;
    content = some (Content.text x none none);
    refs = from_provider m;
  }
  fill string_value (SessionEvent.text_complete i t ts m x p) ev = record ev {
    content = some (Content.text x p none);
    refs = from_provider m;
  }
  fill string_value (SessionEvent.thinking_delta i t ts m x) ev = record ev {
    partial = some true;
    content = some (Content.thinking x none none);
    refs = from_provider m;
  }
  fill string_value (SessionEvent.thinking_complete i t ts m x g) ev = record ev {
    content = some (Content.thinking x g none);
    refs = from_provider m;
  }
  fill string_value (SessionEvent.tool_call i t ts c n a) ev = record ev {
    content = some (Content.function_call c n a none none);
  }
  fill string_value (SessionEvent.tool_dispatch i t ts o c n h m) ev = record ev {
    role = Role.system;
    author = Author.system;
    content = none;
    actions = some (record default_actions {
      tool_dispatch = some (record {
        protocol = tool_boundary_protocol_v1;
        operation_id = o;
        provider_tool_call_id = c;
        tool_name = n;
        canonical_args_hash = h;
        recovery_mode = m;
      });
    });
    refs = some (record default_refs { operation_id = some o; tool_call_id = some c });
  }
  fill string_value (SessionEvent.tool_result i t ts c n x e) ev = record ev {
    role = Role.tool;
    author = Author.tool;
    content = some (Content.function_response c n (string_value x) (some e) none none);
  }
  fill string_value (SessionEvent.complete i t ts r) ev = record ev {
    status = some Status.completed;
    actions = ends_invocation;
  }
  fill string_value (SessionEvent.error i t ts b m c r d) ev = record ev {
    role = Role.system;
    author = Author.system;
    status = some Status.failed;
    content = some (Content.error m c r none);
  }
  fill string_value (SessionEvent.abort i t ts r) ev = record ev {
    role = Role.system;
    author = Author.system;
    status = some Status.aborted;
    actions = ends_invocation;
  }

  unfoldable pub map_session_event :
      (String → V) → SessionEvent V → InvocationContext → RuntimeEvent V
  unfolding skeleton
  map_session_event string_value event ctx = fill string_value event (skeleton ctx event)
