-- ===== src/Storage/Catalog/Rows.antt =====
-- The rows of the session catalog: their key, the revision of a session, and what the replacement of a
-- row and a new row do to both.
use meepo.Prelude.{
  ℕ, ◌≡◌, refl, sym, subst, String, Bool, true, false, ◌&&◌, Option, none, some, List, [], ◌∷◌,
  ◌++◌, any, nat_eq, Bool-cases, inl, inr, arith, ◌==◌, eq_iff, eq_refl, ◌≤◌,
}
use meepo.Storage.{SessionRecord}
use meepo.Storage.Table.{any-append}
use meepo.Storage.Catalog.{same_session, find_session, replace_session, any_matches}

-- the primary key of the table
unfoldable pub UniqueIds : List SessionRecord → Type 0
UniqueIds [] = Unit
UniqueIds (r ∷ rows) = (any (same_session r) rows ≡ false) × UniqueIds rows

abbrev pub row_revision : Option SessionRecord → ℕ
row_revision none = 0
row_revision (some r) = r.revision

-- the revision of a session, 0 where there is no row
unfoldable pub revision_of : List SessionRecord → String → ℕ
unfolding find_session
revision_of rows sid = row_revision (find_session rows sid)

abbrev pub found_at : Option SessionRecord → ℕ → Bool
found_at none e = false
found_at (some r) e = nat_eq r.revision e

any-absent :
    (rows : List SessionRecord) (r : SessionRecord) (sid : String) (e : ℕ)
    → r.session_id ≡ sid
    → any (same_session r) rows ≡ false
    → any_matches rows sid e ≡ false
unfolding any_matches
any-absent [] r sid e h k = refl
any-absent (s ∷ rows) r sid e h k = ground (
  arith,
  any-absent rows r sid e h,
  eq_iff r.session_id s.session_id,
  eq_iff s.session_id sid,
  eq_iff r.session_id sid,
)

-- what the WHERE clause matches is the row of the session, at that revision
pub matches-found :
    (rows : List SessionRecord) (sid : String) (e : ℕ)
    → UniqueIds rows
    → any_matches rows sid e ≡ found_at (find_session rows sid) e
unfolding any_matches find_session UniqueIds
matches-found [] sid e u = refl
matches-found (r ∷ rows) sid e u = elim (Bool-cases (r.session_id == sid)) [
  | inl k ↦
      let q : r.session_id ≡ sid = grind (arith, k, eq_iff r.session_id sid) in
      let n = any-absent rows r sid e q u.0 in ground (arith, k, n)
  | inr k ↦ let ih = matches-found rows sid e u.1 in rw k ih
]

find-replace_other :
    (rows : List SessionRecord) (sid j : String) (e : ℕ) (next : SessionRecord)
    → next.session_id ≡ sid
    → (sid == j) ≡ false
    → find_session (replace_session rows sid e next) j ≡ find_session rows j
unfolding find_session replace_session
find-replace_other [] sid j e next h k = refl
find-replace_other (r ∷ rows) sid j e next h k = ground (
  arith,
  find-replace_other rows sid j e next h k,
  eq_iff r.session_id sid,
  eq_iff sid j,
  eq_iff next.session_id j,
  eq_iff r.session_id j,
)

pub find-replace_same :
    (rows : List SessionRecord) (sid : String) (e : ℕ) (next : SessionRecord)
    → next.session_id ≡ sid
    → found_at (find_session rows sid) e ≡ true
    → find_session (replace_session rows sid e next) sid ≡ some next
unfolding find_session replace_session
find-replace_same [] sid e next h k = cc k
find-replace_same (r ∷ rows) sid e next h k = elim (Bool-cases (r.session_id == sid)) [
  | inl i ↦ rw (i, (rw i at k)) (rw (h, eq_refl sid) refl)
  | inr i ↦ rw i (rw i (find-replace_same rows sid e next h (rw i at k)))
]

any-replace :
    (rows : List SessionRecord) (r : SessionRecord) (sid : String) (e : ℕ) (next : SessionRecord)
    → next.session_id ≡ sid
    → any (same_session r) (replace_session rows sid e next) ≡ any (same_session r) rows
unfolding replace_session
any-replace [] r sid e next h = refl
any-replace (s ∷ rows) r sid e next h = ground (
  arith,
  any-replace rows r sid e next h,
  eq_iff s.session_id sid,
  eq_iff r.session_id s.session_id,
  eq_iff r.session_id next.session_id,
)

pub replace-UniqueIds :
    (rows : List SessionRecord) (sid : String) (e : ℕ) (next : SessionRecord)
    → next.session_id ≡ sid
    → UniqueIds rows
    → UniqueIds (replace_session rows sid e next)
unfolding replace_session UniqueIds
replace-UniqueIds [] sid e next h u = tt
replace-UniqueIds (r ∷ rows) sid e next h u =
    elim (Bool-cases ((r.session_id == sid) && nat_eq r.revision e)) [
      | inl k ↦ rw k (
        (let q : r.session_id ≡ next.session_id = ground (arith, k, h, eq_iff r.session_id sid) in
            rw (any-replace rows next sid e next h, sym q) u.0),
        replace-UniqueIds rows sid e next h u.1,
      )
      | inr k ↦
          rw k (rw (any-replace rows r sid e next h) u.0, replace-UniqueIds rows sid e next h u.1)
    ]

pub push-UniqueIds :
    (rows : List SessionRecord) (r : SessionRecord)
    → any (same_session r) rows ≡ false
    → UniqueIds rows
    → UniqueIds (rows ++ r ∷ [])
unfolding UniqueIds
push-UniqueIds [] r h u = (refl, tt)
push-UniqueIds (s ∷ rows) r h u = (
  ground (
    arith,
    any-append (same_session s) rows (r ∷ []),
    u.0,
    h,
    eq_iff s.session_id r.session_id,
    eq_iff r.session_id s.session_id,
  ),
  push-UniqueIds rows r (ground (arith, h)) u.1,
)

pub found-id :
    (rows : List SessionRecord) (sid : String) (r : SessionRecord)
    → find_session rows sid ≡ some r
    → r.session_id ≡ sid
unfolding find_session
found-id [] sid r h = cc h
found-id (s ∷ rows) sid r h = elim (Bool-cases (s.session_id == sid)) [
  | inl k ↦
      let q : s ≡ r = cc (rw k at h) in
      subst (λ x. x.session_id ≡ sid) q (grind (arith, k, eq_iff s.session_id sid))
  | inr k ↦ found-id rows sid r (rw k at h)
]

pub find-push :
    (rows : List SessionRecord) (r : SessionRecord) (j : String)
    → any (same_session r) rows ≡ false
    → revision_of rows j ≤ revision_of (rows ++ r ∷ []) j
unfolding revision_of
find-push [] r j h = omega arith
find-push (s ∷ rows) r j h = elim (Bool-cases (s.session_id == j)) [
  | inl k ↦ rw k (omega arith)
  | inr k ↦ rw k (find-push rows r j (ground (arith, h)))
]

pub replace-revision :
    (rows : List SessionRecord) (sid j : String) (e : ℕ) (r next : SessionRecord)
    → next.session_id ≡ sid
    → r.revision ≤ next.revision
    → find_session rows sid ≡ some r
    → found_at (find_session rows sid) e ≡ true
    → revision_of rows j ≤ revision_of (replace_session rows sid e next) j
unfolding revision_of
replace-revision rows sid j e r next h b f m = elim (Bool-cases (sid == j)) [
  | inl k ↦
      let q : sid ≡ j = grind (arith, k, eq_iff sid j) in
      subst
        (λ j.
          row_revision (find_session rows j)
          ≤ row_revision (find_session (replace_session rows sid e next) j))
        q (rw (find-replace_same rows sid e next h m, f) b)
  | inr k ↦ rw (find-replace_other rows sid j e next h k) (omega arith)
]
