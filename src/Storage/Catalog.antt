-- ===== src/Storage/Catalog.antt =====
-- crates/meepo-storage/src/lib.rs: the session catalog, whose writers pass the revision that they
-- have read. The labels of a row are kept as the list; `now` is the clock in seconds.
pub mod Rows
pub mod Revisions
use meepo.Prelude.{
  ℕ, suc, ◌+◌, ◌≡◌, refl, sym, ap, subst, ◌∙◌, String, Bool, true, false, not, ◌||◌, ◌&&◌, Option,
  none, some, List, [], ◌∷◌, ◌++◌, append_assoc, append-nil, map, length, any, keep, ltb, leb,
  nat_eq, if◌then◌else◌, Result, ok, err, Bool-cases, Option-cases, inl, inr, arith, ◌==◌, eq_iff,
  eq_refl, ◌<◌, ◌≤◌, ◌↔◌,
}
use meepo.Storage.{SqliteStore, SessionRecord, StoreError}
use meepo.Storage.Table.{insert_or_ignore, order_by}

-- every field is left alone unless it is given
pub record SessionPatch : Type 0 where
  pub name : Option String
  pub labels : Option (List String)
  pub is_archived : Option Bool
  pub cwd : Option String
  pub config_json : Option String
  pub read_marker : Option String

pub data SessionUpdate : Type 0 where
  committed : SessionRecord → SessionUpdate
  -- expected, current
  revision_conflict : ℕ → ℕ → SessionUpdate

abbrev pub same_session : SessionRecord → SessionRecord → Bool
same_session r s = r.session_id == s.session_id

-- `INSERT OR IGNORE` also passes over a row that breaks `CHECK (revision > 0)`.
unfoldable pub create_session : SessionRecord → SqliteStore → SqliteStore
unfolding insert_or_ignore
create_session r st =
    if nat_eq r.revision 0
    then st
    else record st { sessions = insert_or_ignore same_session r st.sessions }

unfoldable pub find_session : List SessionRecord → String → Option SessionRecord
find_session [] sid = none
find_session (r ∷ rows) sid = if r.session_id == sid then some r else find_session rows sid

unfoldable pub get_session : SqliteStore → String → Option SessionRecord
unfolding find_session
get_session st sid = find_session st.sessions sid

-- `ORDER BY created_at ASC`; rows of the same second come in the order of the table.
unfoldable pub list_sessions : SqliteStore → List SessionRecord
unfolding order_by
list_sessions st = order_by (λ r s. leb r.created_at s.created_at) st.sessions

abbrev or_current : {A : Type 0} → Option A → A → A
or_current none a = a
or_current (some b) a = b

abbrev or_current_marker : Option String → Option String → Option String
or_current_marker none m = m
or_current_marker (some b) m = some b

unfoldable pub patched : ℕ → SessionPatch → SessionRecord → SessionRecord
patched now p r = record {
  session_id = r.session_id;
  name = or_current p.name r.name;
  labels = or_current p.labels r.labels;
  revision = suc r.revision;
  is_archived = or_current p.is_archived r.is_archived;
  cwd = or_current p.cwd r.cwd;
  config_json = or_current p.config_json r.config_json;
  read_marker = or_current_marker p.read_marker r.read_marker;
  created_at = r.created_at;
  updated_at = now;
}

-- `UPDATE sessions SET .. WHERE session_id = ? AND revision = ?`, with `session_id` the primary key
unfoldable pub replace_session :
    List SessionRecord → String → ℕ → SessionRecord → List SessionRecord
replace_session [] sid expected next = []
replace_session (r ∷ rows) sid expected next =
    let rest = replace_session rows sid expected next in
    if (r.session_id == sid) && nat_eq r.revision expected then next ∷ rest else r ∷ rest

-- how many rows the statement matches is not 0
unfoldable pub any_matches : List SessionRecord → String → ℕ → Bool
any_matches rows sid expected = any (λ r. (r.session_id == sid) && nat_eq r.revision expected) rows

abbrev update_current :
    ℕ → SqliteStore → String → ℕ → SessionPatch → Option SessionRecord → SqliteStore × SessionUpdate
update_current now st sid expected p none = (st, revision_conflict expected 0)
update_current now st sid expected p (some current) =
    let next = patched now p current in
    if any_matches st.sessions sid expected
    then (record st { sessions = replace_session st.sessions sid expected next }, committed next)
    else (st, revision_conflict expected current.revision)

-- Revisions stay below 2^63: `current.revision + 1` does not overflow.
unfoldable pub update_session :
    ℕ → SqliteStore → String → ℕ → SessionPatch → SqliteStore × SessionUpdate
unfolding find_session patched replace_session any_matches
update_session now st sid expected p =
    update_current now st sid expected p (find_session st.sessions sid)

-- whether a row was there
unfoldable pub remove_session : SqliteStore → String → SqliteStore × Bool
remove_session st sid = (
  record st { sessions = keep (λ r. not (r.session_id == sid)) st.sessions },
  any (λ r. r.session_id == sid) st.sessions,
)
