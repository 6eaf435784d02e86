-- ===== src/Host/Requests/Sessions.antt =====
-- crates/meepo-host/src/handlers/session.rs: the session operations. Each is a handler on the store;
-- `now` is the clock in seconds.
use meepo.Prelude.{ℕ, String, Bool, true, false, Option, none, some, List, [], if◌then◌else◌, ◌==◌}
use mathlib.Core.Option.{bind}
use meepo.Prelude.Int.{ℤ, pos, negsuc}
use meepo.Prelude.Text.{join, is_empty_text}
use meepo.Storage.{SqliteStore, SessionRecord}
use meepo.Storage.Catalog.{
  SessionPatch, SessionUpdate, create_session, get_session, list_sessions, update_session,
  remove_session,
}
use meepo.Host.Connection.{Outcome, outcome_ok, Handler, register}
use meepo.Host.Requests.{Fields, Replies, invalid, text_at, str_field, strings_at}

abbrev no_patch : SessionPatch
no_patch = record {
  name = none;
  labels = none;
  is_archived = none;
  cwd = none;
  config_json = none;
  read_marker = none;
}

abbrev or_zero : Option ℤ → ℤ
or_zero none = pos 0
or_zero (some n) = n

abbrev or_no_strings : Option (List String) → List String
or_no_strings none = []
or_no_strings (some ls) = ls

abbrev stored_or : SessionRecord → Option SessionRecord → SessionRecord
stored_or r none = r
stored_or r (some s) = s

abbrev pub archived_patch : Bool → SessionPatch
archived_patch b = record no_patch { is_archived = some b }

-- the values of `lifecycle`
abbrev lifecycle_archived : String → Option Bool
lifecycle_archived l =
    if l == "archived" then some true else if l == "active" then some false else none

abbrev current_or_zero : Option SessionRecord → ℕ
current_or_zero none = 0
current_or_zero (some r) = r.revision

module _ {V : Type 0} (fields : Fields V) (replies : Replies V) (now : ℕ) where
  abbrev updated : SqliteStore × SessionUpdate → SqliteStore × Outcome V
  updated (st, SessionUpdate.committed r) = (st, outcome_ok (replies.committed r))
  updated (st, SessionUpdate.revision_conflict e c) = (st, outcome_ok (replies.conflict (pos e) c))

  -- No row has a negative revision.
  abbrev apply_expected : SqliteStore → String → ℤ → SessionPatch → SqliteStore × Outcome V
  apply_expected st sid (pos e) p = updated (update_session now st sid e p)
  apply_expected st sid (negsuc e) p =
      (st, outcome_ok (replies.conflict (negsuc e) (current_or_zero (get_session st sid))))

  unfoldable pub apply_patch : SqliteStore → V → SessionPatch → SqliteStore × Outcome V
  unfolding str_field update_session get_session
  apply_patch st input p =
      let sid = str_field fields input "sessionId" in
      if is_empty_text sid
      then (st, invalid "sessionId is required")
      else apply_expected st sid
          (or_zero (bind (fields.member input "expectedRevision") fields.as_i64)) p

  unfoldable session_create : Handler V SqliteStore
  unfolding str_field create_session get_session
  session_create input ctx st =
      let r : SessionRecord = record {
        session_id = str_field fields input "sessionId";
        name = str_field fields input "name";
        labels = or_no_strings (strings_at fields input "labels");
        revision = 1;
        is_archived = false;
        cwd = str_field fields input "cwd";
        config_json = "{}";
        read_marker = none;
        created_at = now;
        updated_at = now;
      } in
      let st' = create_session r st in
      if is_empty_text r.session_id
      then (st, invalid "sessionId is required")
      else (st', outcome_ok (replies.session (stored_or r (get_session st' r.session_id))))

  unfoldable session_catalog_query : Handler V SqliteStore
  unfolding list_sessions
  session_catalog_query input ctx st = (st, outcome_ok (replies.page (list_sessions st)))

  unfoldable session_metadata_update : Handler V SqliteStore
  unfolding apply_patch
  session_metadata_update input ctx st = apply_patch st input (record no_patch {
    name = bind (fields.member input "patch") (λ p. text_at fields p "name");
    labels = bind (fields.member input "patch") (λ p. strings_at fields p "labels");
  })

  abbrev configure : V → SqliteStore → Option String → SqliteStore × Outcome V
  configure input st none = (st, invalid "configuration object is required")
  configure input st (some config) =
      apply_patch st input (record no_patch { config_json = some config })

  unfoldable session_configuration_update : Handler V SqliteStore
  unfolding apply_patch
  session_configuration_update input ctx st =
      configure input st (bind (fields.member input "configuration") fields.object_text)

  unfoldable session_cwd_relocate : Handler V SqliteStore
  unfolding str_field apply_patch
  session_cwd_relocate input ctx st =
      let cwd = str_field fields input "cwd" in
      if is_empty_text cwd
      then (st, invalid "cwd is required")
      else apply_patch st input (record no_patch { cwd = some cwd })

  -- the patch on the revision that the row has now
  abbrev pub rebased :
      V → String → SessionPatch → SqliteStore → Option SessionRecord → SqliteStore × Outcome V
  rebased input sid p st none = (st, invalid (join "session '" (join sid "' does not exist")))
  rebased input sid p st (some current) =
      apply_patch st (fields.with_revision input current.revision) p

  unfoldable session_read_marker_set : Handler V SqliteStore
  unfolding str_field apply_patch get_session
  session_read_marker_set input ctx st =
      let marker = str_field fields input "readThroughMessageId" in
      let sid = str_field fields input "sessionId" in
      if is_empty_text marker
      then (st, invalid "readThroughMessageId is required")
      else rebased input sid (record no_patch { read_marker = some marker }) st (get_session st sid)

  abbrev set_archived : V → SqliteStore → Option Bool → SqliteStore × Outcome V
  set_archived input st none = (st, invalid "lifecycle must be 'archived' or 'active'")
  set_archived input st (some b) =
      let sid = str_field fields input "sessionId" in
      rebased input sid (archived_patch b) st (get_session st sid)

  unfoldable pub session_lifecycle_set : Handler V SqliteStore
  unfolding str_field apply_patch get_session
  session_lifecycle_set input ctx st =
      set_archived input st (lifecycle_archived (str_field fields input "lifecycle"))

  unfoldable session_remove : Handler V SqliteStore
  unfolding str_field remove_session
  session_remove input ctx st =
      let sid = str_field fields input "sessionId" in
      let out = remove_session st sid in
      if is_empty_text sid
      then (st, invalid "sessionId is required")
      else (out.0, outcome_ok (replies.removed out.1))

  unfoldable register_sessions :
      List (String × Handler V SqliteStore) → List (String × Handler V SqliteStore)
  unfolding register session_create session_catalog_query session_metadata_update
      session_configuration_update session_cwd_relocate session_read_marker_set
      session_lifecycle_set session_remove
  register_sessions hs =
      let h1 = register hs "session.create" session_create in
      let h2 = register h1 "session.catalog.query" session_catalog_query in
      let h3 = register h2 "session.metadata.update" session_metadata_update in
      let h4 = register h3 "session.configuration.update" session_configuration_update in
      let h5 = register h4 "session.cwd.relocate" session_cwd_relocate in
      let h6 = register h5 "session.read_marker.set" session_read_marker_set in
      let h7 = register h6 "session.lifecycle.set" session_lifecycle_set in
      register h7 "session.remove" session_remove
