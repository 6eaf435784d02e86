-- ===== src/Storage/Events/Numbering.antt =====
-- The numbers of the stored events: the events of an invocation carry 1, 2, 3, ... in the order of
-- their appends, so that a new number never breaks the table's UNIQUE constraint.
use meepo.Prelude.Counting.{CountsFrom, CountsFrom-next}
use meepo.Storage.{RuntimeEventRow, SqliteStore, StoreError}
use meepo.Storage.Events.{
  maximum, event_row, append_row, append_runtime_event, event_seqs, next_event_seq, of_invocation,
}
use meepo.Storage.Events.{with_events}
use meepo.Storage.Table.{keep-append, insert_row}
use meepo.Core.Event.{RuntimeEvent}
use meepo.Prelude.{true}
use meepo.Prelude.{Result}
use meepo.Prelude.{Option, none}
use meepo.Prelude.{
  ℕ, suc, ◌+◌, ◌≡◌, refl, ap, String, Bool, false, ◌||◌, ◌&&◌, Option, none, some, List, [], ◌∷◌,
  ◌++◌, append-nil, map, length, any, nat_eq, ok, err, Bool-cases, inl, inr, arith, ◌==◌, eq_iff,
  ◌<◌,
}

maximum-CountsFrom :
    (k : ℕ) (n : ℕ) (ns : List ℕ) → CountsFrom k (n ∷ ns) → maximum (n ∷ ns) ≡ k + length ns
unfolding CountsFrom maximum
maximum-CountsFrom k n [] h = omega (arith, h.0)
maximum-CountsFrom k n (m ∷ ns) h =
    let ih = maximum-CountsFrom (suc k) m ns h.1 in omega (arith, h.0, ih)

maximum-length : (ns : List ℕ) → CountsFrom 1 ns → maximum ns ≡ length ns
unfolding maximum
maximum-length [] h = refl
maximum-length (n ∷ ns) h = let q = maximum-CountsFrom 1 n ns h in omega (arith, q)

CountsFrom-maximum : (ns : List ℕ) → CountsFrom 1 ns → CountsFrom 1 (ns ++ suc (maximum ns) ∷ [])
CountsFrom-maximum ns h = rw (maximum-length ns h) (CountsFrom-next ns h)

-- every invocation's events are numbered from 1 in the order of the table
abbrev pub Numbered : List RuntimeEventRow → Type 0
Numbered rows = (iid : String) → CountsFrom 1 (event_seqs rows iid)

map-append_seq :
    (xs ys : List RuntimeEventRow)
    → map (λ r. r.event_seq) (xs ++ ys) ≡ map (λ r. r.event_seq) xs ++ map (λ r. r.event_seq) ys
map-append_seq [] ys = refl
map-append_seq (x ∷ xs) ys = ap (λ l. x.event_seq ∷ l) (map-append_seq xs ys)

pub push-Numbered :
    (rows : List RuntimeEventRow) (r : RuntimeEventRow)
    → r.event_seq ≡ next_event_seq rows r.invocation_id
    → Numbered rows
    → Numbered (rows ++ r ∷ [])
unfolding event_seqs next_event_seq
push-Numbered rows r e h iid = elim (Bool-cases (r.invocation_id == iid)) [
  | inl k ↦
      rw (keep-append (of_invocation iid) rows (r ∷ []), map-append_seq, k)
        (let q : r.invocation_id ≡ iid = grind (arith, k, eq_iff r.invocation_id iid) in
          let e' : r.event_seq ≡ suc (maximum (event_seqs rows iid)) = (rw q at e) in
          rw e' (CountsFrom-maximum (event_seqs rows iid) (h iid)))
  | inr k ↦
      rw (keep-append (of_invocation iid) rows (r ∷ []), map-append_seq, k)
        (rw (append-nil _) (h iid))
]

next-new :
    (rows : List RuntimeEventRow) (iid : String) (n : ℕ)
    → maximum (event_seqs rows iid) < n
    → any (λ s. (iid == s.invocation_id) && nat_eq n s.event_seq) rows ≡ false
unfolding event_seqs maximum
next-new [] iid n h = refl
next-new (s ∷ rows) iid n h =
    ground (arith, eq_iff s.invocation_id iid, eq_iff iid s.invocation_id, next-new rows iid n)

any-or :
    (p q : RuntimeEventRow → Bool) (rows : List RuntimeEventRow)
    → any q rows ≡ false
    → any (λ s. p s || q s) rows ≡ any p rows
any-or p q [] h = refl
any-or p q (s ∷ rows) h = ground (arith, any-or p q rows)

module _ {V : Type 0} where
  -- what an append leaves, if the event serializes to `payload`
  abbrev pub appended : SqliteStore → String → RuntimeEvent V → SqliteStore
  appended st payload e = record st {
    runtime_events =
        st.runtime_events
        ++ event_row payload (next_event_seq st.runtime_events e.invocation_id) e ∷ [];
  }

  -- what an append gives: `payload` is the event's JSON, `taken` whether its id is stored
  abbrev pub append_outcome :
      SqliteStore → RuntimeEvent V → Option String → Bool → Result SqliteStore StoreError
  append_outcome st e none taken = err StoreError.json_failed
  append_outcome st e (some payload) true = err StoreError.constraint_failed
  append_outcome st e (some payload) false = ok (appended st payload e)

  append_row-outcome :
      (st : SqliteStore) (e : RuntimeEvent V) (payload : Option String)
      → with_events st (append_row payload st.runtime_events e)
        ≡ append_outcome st e payload (any (λ s. e.id == s.event_id) st.runtime_events)
  unfolding append_row insert_row event_row next_event_seq
  append_row-outcome st e none = refl
  append_row-outcome st e (some payload) =
      rw
        (any-or (λ s. e.id == s.event_id)
          (λ s.
            (e.invocation_id == s.invocation_id)
            && nat_eq (suc (maximum (event_seqs st.runtime_events e.invocation_id))) s.event_seq)
          st.runtime_events
          (next-new st.runtime_events e.invocation_id
            (suc (maximum (event_seqs st.runtime_events e.invocation_id))) (omega arith)))
        (elim (Bool-cases (any (λ s. e.id == s.event_id) st.runtime_events)) [
          | inl k ↦ rw k refl
          | inr k ↦ rw k refl
        ])

  -- An append fails exactly if the event does not serialize or its id is stored, whatever the table
  -- holds: the number that it draws is never taken. If it succeeds, the table has grown by the event's
  -- row, and nothing else has changed.
  pub append_runtime_event-outcome :
      (to_json : RuntimeEvent V → Option String) (st : SqliteStore) (sid rid : String)
      (e : RuntimeEvent V) (durable : Bool)
      → append_runtime_event to_json st sid rid e durable
        ≡ append_outcome st e (to_json e) (any (λ s. e.id == s.event_id) st.runtime_events)
  unfolding append_runtime_event
  append_runtime_event-outcome to_json st sid rid e durable = append_row-outcome st e (to_json e)
