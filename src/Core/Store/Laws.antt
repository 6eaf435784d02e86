-- ===== src/Core/Store/Laws.antt =====
-- What the in-memory ledger promises: reads return the appended events in order, a run is not touched
-- by the writes of another, and the terminal barrier adds at most one terminal event.
use Prim.Native.Nat.{Ordering}
use Prim.Native.String.{compare}
use mathlib.Core.List.{Perm}
use mathlib.Core.List.Perm
use meepo.Prelude.{
  ℕ, suc, ◌+◌, ◌≤◌, max, ◌≡◌, refl, String, Bool, true, false, ◌&&◌, List, [], ◌∷◌, ◌++◌, ◌==◌,
  eq_iff, any, if◌then◌else◌, arith, Bool-cases, inl, inr,
}
use meepo.Core.Event.{RuntimeEvent}
use meepo.Core.Store.{
  InMemoryRuntimeEventStore, is_terminal_event, run_events, push_event, append_runtime_event,
  read_runtime_events, ensure_terminal_runtime_event_durable, session_events, insert_by_id,
  sort_by_id, read_session_runtime_events,
}

module _ {V : Type 0} where
  run_events-push_event :
      (m : List (String × String × List (RuntimeEvent V))) (sid rid s r : String)
      (e : RuntimeEvent V)
      → run_events (push_event m sid rid e) s r
        ≡ (if (sid == s) && (rid == r) then run_events m s r ++ e ∷ [] else run_events m s r)
  unfolding run_events push_event
  run_events-push_event [] sid rid s r e = ground arith
  run_events-push_event ((s', r', es) ∷ m) sid rid s r e = ground (
    arith,
    eq_iff sid s,
    eq_iff rid r,
    eq_iff s' sid,
    eq_iff r' rid,
    eq_iff s' s,
    eq_iff r' r,
    run_events-push_event m sid rid s r e,
  )

  -- After an append, a read of the run returns its events and then the new one; a read of any other
  -- run returns what it returned before.
  pub read-append :
      (st : InMemoryRuntimeEventStore V) (sid rid s r : String) (e : RuntimeEvent V)
      (durable : Bool)
      → read_runtime_events (append_runtime_event st sid rid e durable) s r ≡ (
          if (sid == s) && (rid == r)
          then read_runtime_events st s r ++ e ∷ []
          else read_runtime_events st s r)
  unfolding read_runtime_events append_runtime_event
  read-append st sid rid s r e durable = run_events-push_event st.runs sid rid s r e

  -- how many terminal events a run has
  unfoldable pub count_terminal : List (RuntimeEvent V) → ℕ
  count_terminal [] = 0
  count_terminal (e ∷ es) =
      let rest = count_terminal es in if is_terminal_event e then suc rest else rest

  pub count_terminal-append :
      (xs ys : List (RuntimeEvent V))
      → count_terminal (xs ++ ys) ≡ count_terminal xs + count_terminal ys
  unfolding count_terminal
  count_terminal-append [] ys = omega arith
  count_terminal-append (x ∷ xs) ys = ground (arith, count_terminal-append xs ys)

  count-any :
      (xs : List (RuntimeEvent V)) → any is_terminal_event xs ≡ false → count_terminal xs ≡ 0
  unfolding count_terminal
  count-any [] h = refl
  count-any (x ∷ xs) h = ground (arith, count-any xs)

  any-count : (xs : List (RuntimeEvent V)) → any is_terminal_event xs ≡ true → 1 ≤ count_terminal xs
  unfolding count_terminal
  any-count [] h = cc
  any-count (x ∷ xs) h = ground (arith, any-count xs)

  any-append_last :
      (xs : List (RuntimeEvent V)) (e : RuntimeEvent V)
      → is_terminal_event e ≡ true
      → any is_terminal_event (xs ++ e ∷ []) ≡ true
  any-append_last [] e h = ground arith
  any-append_last (x ∷ xs) e h = ground (arith, any-append_last xs e h)

  self_key :
      (m : List (String × String × List (RuntimeEvent V))) (sid rid : String) (e : RuntimeEvent V)
      → run_events (push_event m sid rid e) sid rid ≡ run_events m sid rid ++ e ∷ []
  self_key m sid rid e =
      ground (arith, run_events-push_event m sid rid sid rid e, eq_iff sid sid, eq_iff rid rid)

  -- The barrier leaves the run with its terminal events, and with one if it had none.
  pub count_terminal-ensure :
      (st : InMemoryRuntimeEventStore V) (sid rid : String) (e : RuntimeEvent V)
      → is_terminal_event e ≡ true
      → count_terminal
          (read_runtime_events (ensure_terminal_runtime_event_durable st sid rid e) sid rid)
        ≡ max 1 (count_terminal (read_runtime_events st sid rid))
  unfolding read_runtime_events ensure_terminal_runtime_event_durable
  count_terminal-ensure st sid rid e h =
      elim (Bool-cases (any is_terminal_event (run_events st.runs sid rid))) [
        | inl k ↦ rw k (omega (arith, any-count (run_events st.runs sid rid) k))
        | inr k ↦
            rw (k, self_key st.runs sid rid e, count_terminal-append)
              (unfold count_terminal in
                rw h (omega (arith, count-any (run_events st.runs sid rid) k)))
      ]

  -- The barrier is idempotent: behind a terminal event, a second call changes nothing, whatever event
  -- it brings.
  ensure-ensure :
      (st : InMemoryRuntimeEventStore V) (sid rid : String) (e e' : RuntimeEvent V)
      → is_terminal_event e ≡ true
      → let st' = ensure_terminal_runtime_event_durable st sid rid e in
        ensure_terminal_runtime_event_durable st' sid rid e' ≡ st'
  unfolding ensure_terminal_runtime_event_durable
  ensure-ensure st sid rid e e' h =
      elim (Bool-cases (any is_terminal_event (run_events st.runs sid rid))) [
        | inl k ↦ rw k (rw k refl)
        | inr k ↦
            rw (k, self_key st.runs sid rid e, any-append_last (run_events st.runs sid rid) e h)
      ]

  insert_step :
      (e x : RuntimeEvent V) (xs ys : List (RuntimeEvent V)) (o : Ordering)
      → Perm ys (e ∷ xs)
      → Perm (elim o [ Ordering.gt ↦ x ∷ ys | _ ↦ e ∷ x ∷ xs ]) (e ∷ x ∷ xs)
  insert_step e x xs ys Ordering.gt h = Perm.trans (Perm.cons x h) (Perm.swap e x xs)
  insert_step e x xs ys Ordering.lt h = Perm.refl (e ∷ x ∷ xs)
  insert_step e x xs ys Ordering.eq h = Perm.refl (e ∷ x ∷ xs)

  insert_by_id-perm :
      (e : RuntimeEvent V) (xs : List (RuntimeEvent V)) → Perm (insert_by_id e xs) (e ∷ xs)
  unfolding insert_by_id
  insert_by_id-perm e [] = Perm.refl (e ∷ [])
  insert_by_id-perm e (x ∷ xs) =
      insert_step e x xs (insert_by_id e xs) (compare e.id x.id) (insert_by_id-perm e xs)

  sort_by_id-perm : (es : List (RuntimeEvent V)) → Perm (sort_by_id es) es
  unfolding sort_by_id
  sort_by_id-perm [] = Perm.refl []
  sort_by_id-perm (e ∷ es) =
      Perm.trans (insert_by_id-perm e (sort_by_id es)) (Perm.cons e (sort_by_id-perm es))

  -- Reading a session neither loses nor makes up an event of its runs.
  read_session-perm :
      (st : InMemoryRuntimeEventStore V) (sid : String)
      → Perm (read_session_runtime_events st sid) (session_events st.runs sid)
  unfolding read_session_runtime_events
  read_session-perm st sid = sort_by_id-perm (session_events st.runs sid)
