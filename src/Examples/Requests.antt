-- ===== src/Examples/Requests.antt =====
-- Runs of the request handlers, on values that hold a session, one word and a revision.
use meepo.Prelude.{ℕ, ◌≡◌, refl, String, Option, none, some, false, if◌then◌else◌, ◌==◌}
use meepo.Prelude.Int.{ℤ, pos}
use meepo.Prelude.Text.{is_empty_text}
use meepo.Prelude.Dict.{get}
use mathlib.Core.Option.{bind}
use meepo.Storage.{SqliteStore}
use meepo.Storage.Table.{insert_or_ignore}
use meepo.Storage.Catalog.{create_session, find_session}
use meepo.Storage.Catalog.Rows.{UniqueIds}
use meepo.Host.Handshake.Frames.{LifecycleState}
use meepo.Host.Wire.Errors.{OpErrorCode}
use meepo.Host.Turns.{TurnCoordinator}
use meepo.Host.Connection.{OpContext, Outcome, outcome_ok, outcome_err}
use meepo.Host.Requests.{Fields, Replies, str_field}
use meepo.Host.Requests.Sessions.{session_lifecycle_set}
use meepo.Host.Requests.Turns.{turn_start}
use meepo.Host.Requests.Archived.{FieldLaws, turn_start-session_lifecycle_set}
use meepo.Examples.Storage.{one_session, sample_session}
use meepo.Examples.Turns.{texts_over, idle_host}

data Doc : Type 0 where
  text : String → Doc
  number : ℕ → Doc
  -- session, word, revision
  body : String → String → ℕ → Doc

abbrev member : Doc → String → Option Doc
member (body s w n) key =
    if key == "sessionId"
    then some (text s)
    else if key == "expectedRevision"
    then some (number n)
    else some (text w)
member d key = none

abbrev as_str : Doc → Option String
as_str (text t) = some t
as_str d = none

abbrev as_i64 : Doc → Option ℤ
as_i64 (number n) = some (pos n)
as_i64 d = none

abbrev with_revision : Doc → ℕ → Doc
with_revision (body s w n) m = body s w m
with_revision d m = body "" "" m

abbrev doc_fields : Fields Doc
doc_fields = record {
  member = member;
  as_str = as_str;
  as_i64 = as_i64;
  as_array = λ d. none;
  object_text = λ d. none;
  with_revision = with_revision;
}

abbrev doc_replies : Replies Doc
doc_replies = record {
  session = λ r. text r.session_id;
  page = λ rs. text "page";
  committed = λ r. number r.revision;
  conflict = λ e c. number c;
  removed = λ b. text "removed";
  started = λ t. text t.turn_id;
  stopped = λ t. text t.status;
  plan = λ p. text "plan";
  resumed = λ r. text "resumed";
  message = λ e. "storage";
}

revision_read_doc :
    (d : Doc) (n : ℕ) → bind (member (with_revision d n) "expectedRevision") as_i64 ≡ some (pos n)
unfolding bind
revision_read_doc (text t) n = refl
revision_read_doc (number m) n = refl
revision_read_doc (body s w m) n = refl

session_kept_doc :
    (d : Doc) (n : ℕ)
    → str_field doc_fields (with_revision d n) "sessionId" ≡ str_field doc_fields d "sessionId"
unfolding bind str_field
session_kept_doc (text t) n = refl
session_kept_doc (number m) n = refl
session_kept_doc (body s w m) n = refl

doc_laws : FieldLaws doc_fields
doc_laws = record { revision_read = revision_read_doc; session_kept = session_kept_doc }

abbrev context : OpContext
context = record { host_epoch = "e"; lifecycle = LifecycleState.ready }

one_session-UniqueIds : UniqueIds ((idle_host.store).sessions)
unfolding UniqueIds create_session insert_or_ignore
one_session-UniqueIds = (refl, tt)

holds_session : find_session ((idle_host.store).sessions) "s" ≡ some sample_session
unfolding find_session create_session insert_or_ignore
holds_session = refl

read_field : (w : String) → str_field doc_fields (body "s" w 0) "sessionId" ≡ "s"
unfolding str_field bind
read_field w = refl

abbrev archive : Doc
archive = body "s" "archived" 0

abbrev hello_request : Doc
hello_request = body "s" "hello" 0

abbrev archived_store : SqliteStore × Outcome Doc
archived_store = session_lifecycle_set doc_fields doc_replies 9 archive context one_session

abbrev archived_host : TurnCoordinator
archived_host = record idle_host { store = archived_store.0 }

reads_archived : str_field doc_fields archive "lifecycle" ≡ "archived"
unfolding str_field bind
reads_archived = refl

has_content : is_empty_text (str_field doc_fields hello_request "content") ≡ false
unfolding str_field bind
has_content = refl

turn_start-session_lifecycle_set_example :
    (archived_store.1 ≡ outcome_ok (number 2))
    × (turn_start doc_fields doc_replies (texts_over Doc) 10 "c" hello_request context archived_host
        ≡ (archived_host, outcome_err OpErrorCode.session_archived "session 's' is archived"))
turn_start-session_lifecycle_set_example =
    turn_start-session_lifecycle_set doc_fields doc_replies doc_laws (texts_over Doc) "c" 9 10
      context idle_host archive hello_request "s" sample_session one_session-UniqueIds holds_session
      (unfold get in refl) refl (read_field "archived") reads_archived (read_field "hello")
      has_content
