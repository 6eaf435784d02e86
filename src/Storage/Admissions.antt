-- ===== src/Storage/Admissions.antt =====
-- crates/meepo-storage/src/lib.rs: the chain of the admitted root turns of each session.
use meepo.Prelude.{
  String, Bool, true, ◌&&◌, Option, none, some, List, [], ◌∷◌, map, keep, leb, if◌then◌else◌, ◌==◌,
}
use meepo.Storage.{SqliteStore, RootAdmissionRecord}
use meepo.Storage.Table.{insert_or_replace, order_by}

-- the PRIMARY KEY of the table
abbrev same_turn : RootAdmissionRecord → RootAdmissionRecord → Bool
same_turn r s = (r.session_id == s.session_id) && (r.turn_id == s.turn_id)

abbrev in_session : String → RootAdmissionRecord → Bool
in_session sid r = r.session_id == sid

unfoldable pub extend_admission_chain : RootAdmissionRecord → SqliteStore → SqliteStore
unfolding insert_or_replace
extend_admission_chain r st = record st {
  root_admission_chain = insert_or_replace same_turn r st.root_admission_chain;
}

abbrev first_row : List RootAdmissionRecord → Option RootAdmissionRecord
first_row [] = none
first_row (r ∷ rows) = some r

-- `ORDER BY admitted_at DESC LIMIT 1`; of the rows of one second, the first in the table comes first.
unfoldable pub read_admission_tip : SqliteStore → String → Option RootAdmissionRecord
unfolding order_by
read_admission_tip st sid = first_row (
    order_by (λ r s. leb s.admitted_at r.admitted_at)
      (keep (in_session sid) st.root_admission_chain))

abbrev poison : String → RootAdmissionRecord → RootAdmissionRecord
poison sid r = if r.session_id == sid then record r { poisoned = true } else r

unfoldable mark_admission_poisoned : SqliteStore → String → SqliteStore
mark_admission_poisoned st sid = record st {
  root_admission_chain = map (poison sid) st.root_admission_chain;
}

-- `ORDER BY admitted_at ASC`
unfoldable recover_admission_chain : SqliteStore → String → List RootAdmissionRecord
unfolding order_by
recover_admission_chain st sid =
    order_by (λ r s. leb r.admitted_at s.admitted_at)
      (keep (in_session sid) st.root_admission_chain)
