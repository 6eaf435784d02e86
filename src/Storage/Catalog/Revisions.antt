-- ===== src/Storage/Catalog/Revisions.antt =====
-- Optimistic concurrency on the session catalog: revisions only grow, so that of two writers that have
-- read the same revision at most one commits.
use meepo.Prelude.{
  ℕ, suc, ◌≡◌, refl, sym, ap, subst, ◌∙◌, String, true, false, List, [], ◌∷◌, any, nat_eq,
  Bool-cases, Option-cases, inl, inr, arith, ◌<◌, ◌≤◌,
}
use meepo.Storage.{SqliteStore, SessionRecord}
use meepo.Storage.Table.{insert_or_ignore}
use meepo.Storage.Catalog.{
  SessionPatch, committed, revision_conflict, same_session, create_session, find_session, patched,
  any_matches, update_session,
}
use meepo.Storage.Catalog.Rows.{
  UniqueIds, row_revision, revision_of, found_at, matches-found, find-replace_same, found-id,
  replace-UniqueIds, push-UniqueIds, find-push, replace-revision,
}

pub data CatalogWrite : Type 0 where
  create_write : SessionRecord → CatalogWrite
  -- the clock, the session, the expected revision
  update_write : ℕ → String → ℕ → SessionPatch → CatalogWrite

abbrev pub write : CatalogWrite → SqliteStore → SqliteStore
write (create_write r) st = create_session r st
write (update_write now sid e p) st = (update_session now st sid e p).0

abbrev pub write_all : List CatalogWrite → SqliteStore → SqliteStore
write_all [] st = st
write_all (w ∷ ws) st = write_all ws (write w st)

write-UniqueIds :
    (w : CatalogWrite) (st : SqliteStore)
    → UniqueIds st.sessions
    → UniqueIds ((write w st).sessions)
unfolding create_session insert_or_ignore update_session patched
write-UniqueIds (create_write r) st u = elim (Bool-cases (nat_eq r.revision 0)) [
  | inl k ↦ rw k u
  | inr k ↦ rw k (elim (Bool-cases (any (same_session r) st.sessions)) [
    | inl a ↦ rw a u
    | inr a ↦ rw a (push-UniqueIds st.sessions r a u)
  ])
]
write-UniqueIds (update_write now sid e p) st u =
    elim (Option-cases (find_session st.sessions sid)) [
      | inl n ↦ rw (write, update_session, n) u
      | inr (r, f) ↦
          rw (write, update_session, f)
            (elim (Bool-cases (any_matches st.sessions sid e)) [
              | inl m ↦ rw m (
                  replace-UniqueIds st.sessions sid e (patched now p r)
                    (found-id st.sessions sid r f) u)
              | inr m ↦ rw m u
            ])
    ]

write-revision :
    (w : CatalogWrite) (st : SqliteStore) (j : String)
    → UniqueIds st.sessions
    → revision_of st.sessions j ≤ revision_of ((write w st).sessions) j
unfolding create_session insert_or_ignore update_session patched revision_of
write-revision (create_write r) st j u = elim (Bool-cases (nat_eq r.revision 0)) [
  | inl k ↦ rw k (omega arith)
  | inr k ↦ rw k (elim (Bool-cases (any (same_session r) st.sessions)) [
    | inl a ↦ rw a (omega arith)
    | inr a ↦ rw a (find-push st.sessions r j a)
  ])
]
write-revision (update_write now sid e p) st j u =
    elim (Option-cases (find_session st.sessions sid)) [
      | inl n ↦ rw (write, update_session, n) (omega arith)
      | inr (r, f) ↦
          rw (write, update_session, f)
            (elim (Bool-cases (any_matches st.sessions sid e)) [
              | inl m ↦ rw m (
                  replace-revision st.sessions sid j e r (patched now p r)
                    (found-id st.sessions sid r f) (unfold patched in omega arith) f
                    (sym (matches-found st.sessions sid e u) ∙ m))
              | inr m ↦ rw m (omega arith)
            ])
    ]

write_all-revision :
    (ws : List CatalogWrite) (st : SqliteStore) (j : String)
    → UniqueIds st.sessions
    → revision_of st.sessions j ≤ revision_of ((write_all ws st).sessions) j
write_all-revision [] st j u = omega arith
write_all-revision (w ∷ ws) st j u =
    omega (
      arith,
      write-revision w st j u,
      write_all-revision ws (write w st) j (write-UniqueIds w st u),
    )

write_all-UniqueIds :
    (ws : List CatalogWrite) (st : SqliteStore)
    → UniqueIds st.sessions
    → UniqueIds ((write_all ws st).sessions)
write_all-UniqueIds [] st u = u
write_all-UniqueIds (w ∷ ws) st u = write_all-UniqueIds ws (write w st) (write-UniqueIds w st u)

not_committed : {e v : ℕ} {r : SessionRecord} → revision_conflict e v ≡ committed r → ⊥
not_committed h = cc h

committed-revision :
    (now : ℕ) (st st1 : SqliteStore) (sid : String) (e : ℕ) (p : SessionPatch) (r1 : SessionRecord)
    → UniqueIds st.sessions
    → update_session now st sid e p ≡ (st1, committed r1)
    → revision_of st1.sessions sid ≡ suc e
unfolding update_session revision_of patched
committed-revision now st st1 sid e p r1 u h = elim (Option-cases (find_session st.sessions sid)) [
  | inl n ↦ let h' = (rw n at h) in absurd (not_committed (ap (λ x. x.1) h'))
  | inr (r, f) ↦ elim (Bool-cases (any_matches st.sessions sid e)) [
    | inl m ↦
        let h' = (rw (f, m) at h) in
        let g : found_at (find_session st.sessions sid) e ≡ true =
          sym (matches-found st.sessions sid e u) ∙ m in
        let v : r.revision ≡ e = (let g' = (rw f at g) in ground (arith, g')) in
        subst (λ x. row_revision (find_session x.sessions sid) ≡ suc e) (ap (λ x. x.0) h')
          (rw
            (find-replace_same st.sessions sid e (patched now p r) (found-id st.sessions sid r f) g)
            (ap suc v))
    | inr m ↦ let h' = (rw (f, m) at h) in absurd (not_committed (ap (λ x. x.1) h'))
  ]
]

stale-conflict :
    (now : ℕ) (st : SqliteStore) (sid : String) (e : ℕ) (p : SessionPatch)
    → UniqueIds st.sessions
    → e < revision_of st.sessions sid
    → (current : ℕ) × (update_session now st sid e p ≡ (st, revision_conflict e current))
      × (e < current)
unfolding update_session revision_of
stale-conflict now st sid e p u b = elim (Option-cases (find_session st.sessions sid)) [
  | inl n ↦ let b' = (rw n at b) in absurd (omega (arith, b'))
  | inr (r, f) ↦
      let b' = (rw f at b) in
      let m : any_matches st.sessions sid e ≡ false =
        rw (matches-found st.sessions sid e u, f) (ground (arith, b')) in
      (r.revision, rw (f, m) refl, b')
]

-- A writer's update with the expected revision `e` commits. Whatever creates and updates follow, an
-- update of the same session that also expects `e` changes nothing and reports a conflict with a
-- later revision. The ids of the catalog are unique to begin with.
pub update_session-first_wins :
    (now now' : ℕ) (st st1 : SqliteStore) (sid : String) (e : ℕ) (p p' : SessionPatch)
    (r1 : SessionRecord) (ws : List CatalogWrite)
    → UniqueIds st.sessions
    → update_session now st sid e p ≡ (st1, committed r1)
    → (current : ℕ) × (update_session now' (write_all ws st1) sid e p'
        ≡ (write_all ws st1, revision_conflict e current))
      × (e < current)
update_session-first_wins now now' st st1 sid e p p' r1 ws u h =
    let u1 =
      subst (λ x. UniqueIds x.sessions) (ap (λ x. x.0) h)
        (write-UniqueIds (update_write now sid e p) st u) in
    let v = committed-revision now st st1 sid e p r1 u h in
    let m = write_all-revision ws st1 sid u1 in
    stale-conflict now' (write_all ws st1) sid e p' (write_all-UniqueIds ws st1 u1)
      (omega (arith, v, m))
