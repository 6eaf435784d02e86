-- ===== src/Host/Requests/Archived.antt =====
-- crates/meepo-host/src/handlers/session.rs and turn.rs together: what a change of the lifecycle of a
-- session means for the turns that are started afterwards.
use meepo.Prelude.{ℕ, suc, ◌≡◌, refl, String, Bool, true, false, none, some, arith}
use meepo.Prelude.Int.{pos}
use meepo.Prelude.Text.{join, is_empty_text}
use meepo.Prelude.Dict.{get}
use mathlib.Core.Option.{bind}
use meepo.Storage.{SqliteStore, SessionRecord}
use meepo.Storage.Catalog.{
  SessionPatch, find_session, get_session, replace_session, patched, update_session, any_matches,
}
use meepo.Storage.Catalog.Rows.{UniqueIds, matches-found, find-replace_same, found-id}
use meepo.Host.Wire.Errors.{OpErrorCode}
use meepo.Host.Turns.{TurnCoordinator, Texts, begin_turn, check_active, check_session}
use meepo.Host.Connection.{OpContext, outcome_ok, outcome_err}
use meepo.Host.Requests.{Fields, Replies, str_field}
use meepo.Host.Requests.Sessions.{apply_patch, session_lifecycle_set, archived_patch}
use meepo.Host.Requests.Turns.{turn_start}

-- what `Index` and `get` of an object of serde_json keep
pub record FieldLaws {V : Type 0} (fields : Fields V) : Type 0 where
  pub revision_read :
      (input : V) (n : ℕ)
      → bind (fields.member (fields.with_revision input n) "expectedRevision") fields.as_i64
        ≡ some (pos n)
  pub session_kept :
      (input : V) (n : ℕ)
      → str_field fields (fields.with_revision input n) "sessionId"
        ≡ str_field fields input "sessionId"

module _ {V : Type 0} (fields : Fields V) (replies : Replies V) (laws : FieldLaws fields) where
  apply_patch-rebased :
      (now : ℕ) (st : SqliteStore) (input : V) (p : SessionPatch) (sid : String) (r : SessionRecord)
      → UniqueIds st.sessions
      → str_field fields input "sessionId" ≡ sid
      → is_empty_text sid ≡ false
      → find_session st.sessions sid ≡ some r
      → apply_patch fields replies now st (fields.with_revision input r.revision) p ≡ (
        record st { sessions = replace_session st.sessions sid r.revision (patched now p r) },
        outcome_ok (replies.committed (patched now p r)),
      )
  unfolding apply_patch update_session get_session
  apply_patch-rebased now st input p sid r u s e f =
      let m : any_matches st.sessions sid r.revision ≡ true =
        rw (matches-found st.sessions sid r.revision u, f) (grind arith) in
      rw (laws.session_kept input r.revision, s, e, laws.revision_read input r.revision, f, m) refl

  find-archived :
      (now : ℕ) (st : SqliteStore) (b : Bool) (sid : String) (r : SessionRecord)
      → find_session st.sessions sid ≡ some r
      → find_session
          (replace_session st.sessions sid r.revision (patched now (archived_patch b) r))
          sid
        ≡ some (patched now (archived_patch b) r)
  unfolding patched
  find-archived now st b sid r f =
      find-replace_same st.sessions sid r.revision (patched now (archived_patch b) r)
        (found-id st.sessions sid r f) (rw f (grind arith))

  -- Where the ids of the catalog are unique, the session is in the catalog and no turn of it runs,
  -- `session.lifecycle.set` with `archived` commits the row of the session archived, at the next
  -- revision and otherwise as it was; a `turn.start` with content on the state that it leaves is
  -- refused as archived and changes nothing.
  pub turn_start-session_lifecycle_set :
      (texts : Texts V) (claim_id : String) (now now' : ℕ) (ctx : OpContext) (k : TurnCoordinator)
      (set start : V) (sid : String) (r : SessionRecord)
      → UniqueIds ((k.store).sessions)
      → find_session ((k.store).sessions) sid ≡ some r
      → get k.active sid ≡ none
      → is_empty_text sid ≡ false
      → str_field fields set "sessionId" ≡ sid
      → str_field fields set "lifecycle" ≡ "archived"
      → str_field fields start "sessionId" ≡ sid
      → is_empty_text (str_field fields start "content") ≡ false
      → let out = session_lifecycle_set fields replies now set ctx k.store in
        let k' : TurnCoordinator = record k { store = out.0 } in
        (out.1
          ≡ outcome_ok (
              replies.committed
                (record r { revision = suc r.revision; is_archived = true; updated_at = now })))
        × (turn_start fields replies texts now' claim_id start ctx k' ≡ (
          k',
          outcome_err OpErrorCode.session_archived (join "session '" (join sid "' is archived")),
        ))
  unfolding session_lifecycle_set turn_start begin_turn check_active check_session get_session
  turn_start-session_lifecycle_set texts claim_id now now' ctx k set start sid r u f idle e s l s'
        c =
      let a = apply_patch-rebased now k.store set (archived_patch true) sid r u s e f in
      rw (l, s, f, a, s', e, c, idle, find-archived now k.store true sid r f)
        (unfold patched in refl, refl)
