-- ===== src/Storage/Events/Order.antt =====
-- A query of one run: rows of one invocation are in the order of their numbers already.
use meepo.Prelude.{All}
use meepo.Prelude.{
  ℕ, suc, ◌≡◌, refl, String, Bool, true, false, not, List, [], ◌∷◌, any, keep, Bool-cases, inl, inr,
  arith, ◌<◌,
}
use meepo.Prelude.Counting.{CountsFrom}
use meepo.Storage.{RuntimeEventRow}
use meepo.Storage.Table.{insert_sorted-least, order_by}
use meepo.Storage.Events.{event_seqs, of_invocation, seq_leq}

-- the rows that `p` picks all belong to the invocation
abbrev pub Within : (RuntimeEventRow → Bool) → String → List RuntimeEventRow → Type 0
Within p iid rows = All (λ r. p r ≡ true → of_invocation iid r ≡ true) rows

above_all :
    (p : RuntimeEventRow → Bool) (iid : String) (r : RuntimeEventRow) (k : ℕ)
    (rows : List RuntimeEventRow)
    → r.event_seq < k
    → CountsFrom k (event_seqs rows iid)
    → Within p iid rows
    → any (λ s. not (seq_leq r s)) (keep p rows) ≡ false
unfolding event_seqs CountsFrom
above_all p iid r k [] l c w = refl
above_all p iid r k (s ∷ rows) l c w = elim (Bool-cases (of_invocation iid s)) [
  | inl i ↦
      let c' = (rw i at c) in
      let rest = above_all p iid r (suc k) rows (omega (arith, l)) c'.1 w.1 in
      let e = c'.0 in
      elim (Bool-cases (p s)) [ inl h ↦ rw h (ground (arith, rest, e)) | inr h ↦ rw h rest ]
  | inr i ↦
      let c' = (rw i at c) in
      let rest = above_all p iid r k rows l c' w.1 in
      elim (Bool-cases (p s)) [ inl h ↦ let j = w.0 h in cc (i, j) | inr h ↦ rw h rest ]
]

pub order_by-keep :
    (p : RuntimeEventRow → Bool) (iid : String) (k : ℕ) (rows : List RuntimeEventRow)
    → CountsFrom k (event_seqs rows iid)
    → Within p iid rows
    → order_by seq_leq (keep p rows) ≡ keep p rows
unfolding order_by event_seqs CountsFrom
order_by-keep p iid k [] c w = refl
order_by-keep p iid k (s ∷ rows) c w = elim (Bool-cases (of_invocation iid s)) [
  | inl i ↦
      let c' = (rw i at c) in
      let rest = order_by-keep p iid (suc k) rows c'.1 w.1 in
      let e = c'.0 in
      elim (Bool-cases (p s)) [
        | inl h ↦
            rw (h, rest)
              (insert_sorted-least seq_leq s (keep p rows)
                (above_all p iid s (suc k) rows (omega (arith, e)) c'.1 w.1))
        | inr h ↦ rw h rest
      ]
  | inr i ↦
      let c' = (rw i at c) in
      let rest = order_by-keep p iid k rows c' w.1 in
      elim (Bool-cases (p s)) [ inl h ↦ let j = w.0 h in cc (i, j) | inr h ↦ rw h rest ]
]
