-- ===== src/Storage/Table.antt =====
-- The SQL statements that crates/meepo-storage/src/lib.rs uses, on a table as the list of its rows. `clash r s`
-- says that the two rows break a PRIMARY KEY or UNIQUE constraint together.
use meepo.Prelude.{
  ◌≡◌, refl, ap, Bool, false, not, ◌||◌, List, [], ◌∷◌, ◌++◌, any, keep, Result, ok, err,
  if◌then◌else◌, Bool-cases, inl, inr,
}
use meepo.Storage.{StoreError}

module _ {R : Type 0} where
  -- `INSERT INTO`
  unfoldable pub insert_row : (R → R → Bool) → R → List R → Result (List R) StoreError
  insert_row clash r rows =
      if any (clash r) rows then err StoreError.constraint_failed else ok (rows ++ r ∷ [])

  -- `INSERT OR IGNORE INTO`
  unfoldable pub insert_or_ignore : (R → R → Bool) → R → List R → List R
  insert_or_ignore clash r rows = if any (clash r) rows then rows else rows ++ r ∷ []

  -- `INSERT OR REPLACE INTO`: every row that is in the way is deleted.
  unfoldable pub insert_or_replace : (R → R → Bool) → R → List R → List R
  insert_or_replace clash r rows = keep (λ s. not (clash r s)) rows ++ r ∷ []

  -- `ORDER BY`, with `leq` the order of two rows
  unfoldable pub insert_sorted : (R → R → Bool) → R → List R → List R
  insert_sorted leq r [] = r ∷ []
  insert_sorted leq r (s ∷ rows) =
      let rest = insert_sorted leq r rows in if leq r s then r ∷ s ∷ rows else s ∷ rest

  unfoldable pub order_by : (R → R → Bool) → List R → List R
  unfolding insert_sorted
  order_by leq [] = []
  order_by leq (r ∷ rows) = insert_sorted leq r (order_by leq rows)

  pub keep-append : (p : R → Bool) (xs ys : List R) → keep p (xs ++ ys) ≡ keep p xs ++ keep p ys
  keep-append p [] ys = refl
  keep-append p (x ∷ xs) ys = elim (Bool-cases (p x)) [
    | inl h ↦ rw h (ap (λ l. x ∷ l) (keep-append p xs ys))
    | inr h ↦ rw h (keep-append p xs ys)
  ]

  pub any-append : (p : R → Bool) (xs ys : List R) → any p (xs ++ ys) ≡ (any p xs || any p ys)
  any-append p [] ys = refl
  any-append p (x ∷ xs) ys = elim (Bool-cases (p x)) [
    | inl h ↦ rw h refl
    | inr h ↦ rw h (any-append p xs ys)
  ]

  -- A row that comes before all others goes to the front.
  pub insert_sorted-least :
      (leq : R → R → Bool) (r : R) (rows : List R)
      → any (λ s. not (leq r s)) rows ≡ false
      → insert_sorted leq r rows ≡ r ∷ rows
  unfolding insert_sorted
  insert_sorted-least leq r [] h = refl
  insert_sorted-least leq r (s ∷ rows) h = elim (Bool-cases (leq r s)) [
    | inl k ↦ rw k refl
    | inr k ↦ cc (rw k at h)
  ]
