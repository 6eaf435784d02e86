-- ===== src/Storage/Events/Reads.antt =====
-- What the stored events read back as: the reads of a run against those of the in-memory ledger.
use meepo.Prelude.{All, ◌>>=◌}
use meepo.Prelude.{
  suc, ◌≡◌, refl, sym, ap, subst, String, Bool, true, ◌&&◌, Option, some, List, [], ◌∷◌, ◌++◌,
  append_assoc, append-nil, length, any, keep, Result, ok, err, Bool-cases, Option-cases, inl, inr,
  ◌==◌, eq_refl,
}
use meepo.Core.Event.{RuntimeEvent}
use meepo.Core.Store.{InMemoryRuntimeEventStore, Durability}
use meepo.Core.Store
use meepo.Core.Store.Laws.{read-append}
use meepo.Prelude.Counting.{CountsFrom}
use meepo.Storage.{RuntimeEventRow, SqliteStore, StoreError, in_memory}
use meepo.Storage.Events.{
  event_seqs, of_run, event_row, append_runtime_event, parse_rows, read_runtime_events,
  read_runtime_event_high_water,
}
use meepo.Storage.Events.Numbering.{Numbered, push-Numbered, append_runtime_event-outcome, appended}
use meepo.Storage.Events.Order.{Within, order_by-keep}

module _ {V : Type 0} where
  abbrev pub event_of_run : String → String → RuntimeEvent V → Bool
  event_of_run sid rid e = (e.session_id == sid) && (e.run_id == rid)

  record Holds (from_str : String → Option (RuntimeEvent V)) (r : RuntimeEventRow)
      (e : RuntimeEvent V) : Type 0 where
    parses : from_str r.payload_json ≡ some e
    same_session : r.session_id ≡ e.session_id
    same_run : r.run_id ≡ e.run_id
    same_invocation : r.invocation_id ≡ e.invocation_id

  -- the rows hold the events, in order
  unfoldable HoldsAll :
      (String → Option (RuntimeEvent V)) → List RuntimeEventRow → List (RuntimeEvent V) → Type 0
  HoldsAll from_str [] [] = Unit
  HoldsAll from_str (r ∷ rows) (e ∷ es) = Holds from_str r e × HoldsAll from_str rows es
  HoldsAll from_str rows es = ⊥

  HoldsAll-push :
      (from_str : String → Option (RuntimeEvent V)) (rows : List RuntimeEventRow)
      (es : List (RuntimeEvent V)) (r : RuntimeEventRow) (e : RuntimeEvent V)
      → HoldsAll from_str rows es
      → Holds from_str r e
      → HoldsAll from_str (rows ++ r ∷ []) (es ++ e ∷ [])
  unfolding HoldsAll
  HoldsAll-push from_str [] [] r e h k = (k, tt)
  HoldsAll-push from_str [] (x ∷ es) r e h k = absurd h
  HoldsAll-push from_str (x ∷ rows) [] r e h k = absurd h
  HoldsAll-push from_str (x ∷ rows) (y ∷ es) r e h k =
      (h.0, HoldsAll-push from_str rows es r e h.1 k)

  of_run-event_of_run :
      (from_str : String → Option (RuntimeEvent V)) (sid rid : String) (r : RuntimeEventRow)
      (e : RuntimeEvent V)
      → Holds from_str r e
      → of_run sid rid r ≡ event_of_run sid rid e
  of_run-event_of_run from_str sid rid r e h = rw (h.same_session, h.same_run) refl

  parse-keep :
      (from_str : String → Option (RuntimeEvent V)) (sid rid : String) (rows : List RuntimeEventRow)
      (es : List (RuntimeEvent V))
      → HoldsAll from_str rows es
      → parse_rows from_str (keep (of_run sid rid) rows) ≡ ok (keep (event_of_run sid rid) es)
  unfolding HoldsAll parse_rows
  parse-keep from_str sid rid [] [] h = refl
  parse-keep from_str sid rid [] (e ∷ es) h = absurd h
  parse-keep from_str sid rid (r ∷ rows) [] h = absurd h
  parse-keep from_str sid rid (r ∷ rows) (e ∷ es) h =
      let q = of_run-event_of_run from_str sid rid r e h.0 in
      let ih = parse-keep from_str sid rid rows es h.1 in
      let p = h.0 in
      elim (Bool-cases (event_of_run sid rid e)) [
        | inl k ↦ rw (q, k) (rw (p.parses, ih) refl)
        | inr k ↦ rw (q, k) ih
      ]

  keep-Within :
      (from_str : String → Option (RuntimeEvent V)) (sid rid iid : String)
      (rows : List RuntimeEventRow) (es : List (RuntimeEvent V))
      → HoldsAll from_str rows es
      → All (λ e. event_of_run sid rid e ≡ true → e.invocation_id ≡ iid) es
      → Within (of_run sid rid) iid rows
  unfolding HoldsAll
  keep-Within from_str sid rid iid [] [] h a = tt
  keep-Within from_str sid rid iid [] (e ∷ es) h a = absurd h
  keep-Within from_str sid rid iid (r ∷ rows) [] h a = absurd h
  keep-Within from_str sid rid iid (r ∷ rows) (e ∷ es) h a =
      let q = of_run-event_of_run from_str sid rid r e h.0 in
      let p = h.0 in
      (
        λ k. rw (p.same_invocation, a.0 (rw q at k)) (eq_refl iid),
        keep-Within from_str sid rid iid rows es h.1 a.1,
      )

  -- Appends in a row, up to the first that fails.
  unfoldable pub append_events :
      (RuntimeEvent V → Option String)
      → List (RuntimeEvent V)
      → SqliteStore
      → Result SqliteStore StoreError
  unfolding append_runtime_event
  append_events to_json [] st = ok st
  append_events to_json (e ∷ es) st =
      append_runtime_event to_json st e.session_id e.run_id e true >>= append_events to_json es

  unfoldable pub append_each :
      List (RuntimeEvent V) → InMemoryRuntimeEventStore V → InMemoryRuntimeEventStore V
  append_each [] st = st
  append_each (e ∷ es) st =
      append_each es (Store.append_runtime_event st e.session_id e.run_id e true)

  read-append_each :
      (es : List (RuntimeEvent V)) (st : InMemoryRuntimeEventStore V) (sid rid : String)
      → Store.read_runtime_events (append_each es st) sid rid
        ≡ Store.read_runtime_events st sid rid ++ keep (event_of_run sid rid) es
  unfolding append_each
  read-append_each [] st sid rid = sym (append-nil _)
  read-append_each (e ∷ es) st sid rid = elim (Bool-cases (event_of_run sid rid e)) [
    | inl k ↦
        rw (read-append_each es _ sid rid, read-append st e.session_id e.run_id sid rid e true, k)
          (append_assoc (Store.read_runtime_events st sid rid) (e ∷ [])
            (keep (event_of_run sid rid) es))
    | inr k ↦
        rw (read-append_each es _ sid rid, read-append st e.session_id e.run_id sid rid e true, k)
          refl
  ]

  -- what an append that succeeds has done
  appended-ok :
      (to_json : RuntimeEvent V → Option String) (st st' : SqliteStore) (e : RuntimeEvent V)
      → append_runtime_event to_json st e.session_id e.run_id e true ≡ ok st'
      → (payload : String) × (to_json e ≡ some payload) × (st' ≡ appended st payload e)
  appended-ok to_json st st' e h =
      let o = append_runtime_event-outcome to_json st e.session_id e.run_id e true in
      elim (Option-cases (to_json e)) [
        | inl n ↦ let q = (rw n at o) in cc (q, h)
        | inr (payload, s) ↦ elim (Bool-cases (any (λ r. e.id == r.event_id) st.runtime_events)) [
          | inl k ↦ let q = (rw (s, k) at o) in cc (q, h)
          | inr k ↦ let q = (rw (s, k) at o) in (payload, s, cc (q, h))
        ]
      ]

  -- the event's JSON, if there is one, parses back to it
  abbrev pub ReadsBack :
      (RuntimeEvent V → Option String)
      → (String → Option (RuntimeEvent V))
      → RuntimeEvent V
      → Type 0
  ReadsBack to_json from_str e =
      (payload : String) → to_json e ≡ some payload → from_str payload ≡ some e

  -- the stored rows hold the events and are numbered
  record Stored (from_str : String → Option (RuntimeEvent V)) (es : List (RuntimeEvent V))
      (st : SqliteStore) : Type 0 where
    holds : HoldsAll from_str st.runtime_events es
    numbered : Numbered st.runtime_events

  appended-Stored :
      (from_str : String → Option (RuntimeEvent V)) (es : List (RuntimeEvent V)) (st : SqliteStore)
      (e : RuntimeEvent V) (payload : String)
      → from_str payload ≡ some e
      → Stored from_str es st
      → Stored from_str (es ++ e ∷ []) (appended st payload e)
  unfolding event_row
  appended-Stored from_str es st e payload h s = record {
    holds =
        HoldsAll-push from_str st.runtime_events es _ e s.holds
          (record { parses = h; same_session = refl; same_run = refl; same_invocation = refl });
    numbered = push-Numbered st.runtime_events _ refl s.numbered;
  }

  after-append :
      (to_json : RuntimeEvent V → Option String) (from_str : String → Option (RuntimeEvent V))
      (e : RuntimeEvent V) (es0 es : List (RuntimeEvent V)) (st st' : SqliteStore)
      (o : Result SqliteStore StoreError)
      → ((payload : String) → to_json e ≡ some payload → from_str payload ≡ some e)
      → append_runtime_event to_json st e.session_id e.run_id e true ≡ o
      → ((st1 : SqliteStore)
          → append_events to_json es st1 ≡ ok st'
          → Stored from_str (es0 ++ e ∷ []) st1
          → Stored from_str ((es0 ++ e ∷ []) ++ es) st')
      → (o >>= append_events to_json es) ≡ ok st'
      → Stored from_str es0 st
      → Stored from_str (es0 ++ e ∷ es) st'
  after-append to_json from_str e es0 es st st' (err x) trip q ih h s = cc h
  after-append to_json from_str e es0 es st st' (ok st1) trip q ih h s =
      let (payload, j, a) = appended-ok to_json st st1 e q in
      let s1 =
        subst (λ x. Stored from_str (es0 ++ e ∷ []) x) (sym a)
          (appended-Stored from_str es0 st e payload (trip payload j) s) in
      subst (λ l. Stored from_str l st') (append_assoc es0 (e ∷ []) es) (ih st1 h s1)

  append_events-Stored :
      (to_json : RuntimeEvent V → Option String) (from_str : String → Option (RuntimeEvent V))
      (es0 es : List (RuntimeEvent V)) (st st' : SqliteStore)
      → All (ReadsBack to_json from_str) es
      → append_events to_json es st ≡ ok st'
      → Stored from_str es0 st
      → Stored from_str (es0 ++ es) st'
  unfolding append_events
  append_events-Stored to_json from_str es0 [] st st' trip h s =
      let q : st ≡ st' = cc h in
      subst (λ l. Stored from_str l st') (sym (append-nil es0)) (subst (Stored from_str es0) q s)
  append_events-Stored to_json from_str es0 (e ∷ es) st st' trip h s =
      after-append to_json from_str e es0 es st st' _ trip.0 refl
        (λ st1. append_events-Stored to_json from_str (es0 ++ e ∷ []) es st1 st' trip.1) h s

  count-keep :
      (from_str : String → Option (RuntimeEvent V)) (sid rid : String) (rows : List RuntimeEventRow)
      (es : List (RuntimeEvent V))
      → HoldsAll from_str rows es
      → length (keep (of_run sid rid) rows) ≡ length (keep (event_of_run sid rid) es)
  unfolding HoldsAll
  count-keep from_str sid rid [] [] h = refl
  count-keep from_str sid rid [] (e ∷ es) h = absurd h
  count-keep from_str sid rid (r ∷ rows) [] h = absurd h
  count-keep from_str sid rid (r ∷ rows) (e ∷ es) h =
      let q = of_run-event_of_run from_str sid rid r e h.0 in
      let ih = count-keep from_str sid rid rows es h.1 in
      elim (Bool-cases (event_of_run sid rid e)) [
        | inl k ↦ rw (q, k) (ap suc ih)
        | inr k ↦ rw (q, k) ih
      ]

  abbrev pub empty_ledger : InMemoryRuntimeEventStore V
  empty_ledger = record { durability = Durability.best_effort; runs = [] }

  -- Events are appended to a fresh database, and every append succeeds. If what serializes parses
  -- back, and the events of a run are of one invocation, then a read of the run returns the list that
  -- the in-memory ledger returns after the same appends, and the high-water mark is its length.
  pub read-append_events :
      (to_json : RuntimeEvent V → Option String) (from_str : String → Option (RuntimeEvent V))
      (es : List (RuntimeEvent V)) (st : SqliteStore)
      → All (ReadsBack to_json from_str) es
      → append_events to_json es in_memory ≡ ok st
      → (sid rid iid : String) → All (λ e. event_of_run sid rid e ≡ true → e.invocation_id ≡ iid) es
      → let ledger = Store.read_runtime_events (append_each es empty_ledger) sid rid in
        (read_runtime_events from_str st sid rid ≡ ok ledger)
        × (read_runtime_event_high_water st sid rid ≡ length ledger)
  unfolding read_runtime_events read_runtime_event_high_water Store.read_runtime_events
      Store.run_events HoldsAll CountsFrom event_seqs
  read-append_events to_json from_str es st trip h sid rid iid one =
      let s =
        append_events-Stored to_json from_str [] es in_memory st trip h
          (record { holds = tt; numbered = λ i. tt }) in
      let m = read-append_each es empty_ledger sid rid in
      let w = keep-Within from_str sid rid iid st.runtime_events es s.holds one in
      rw (m, order_by-keep (of_run sid rid) iid 1 st.runtime_events (s.numbered iid) w)
        (
          parse-keep from_str sid rid st.runtime_events es s.holds,
          count-keep from_str sid rid st.runtime_events es s.holds,
        )
