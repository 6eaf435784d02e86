-- ===== src/Host/Continuity/Removal.antt =====
-- `Vec::swap_remove` on a list whose elements have distinct ids.
use meepo.Prelude.{ℕ, suc, ◌≡◌, subst, String, false, some, List, [], ◌∷◌, arith, ◌==◌, eq_iff}
use meepo.Prelude.{zero, All, get_elem?}
use meepo.Host.Continuity.{split_last, swap_remove}

module _ {A : Type 0} where
  All-split_last :
      (P : A → Type 0) (x : A) (xs : List A)
      → P x
      → All P xs
      → All P ((split_last x xs).0) × P ((split_last x xs).1)
  All-split_last P x [] h hs = (tt, h)
  All-split_last P x (y ∷ ys) h hs = let r = All-split_last P y ys hs.0 hs.1 in ((h, r.0), r.1)

  pub All-swap_remove : (P : A → Type 0) (xs : List A) (i : ℕ) → All P xs → All P (swap_remove xs i)
  All-swap_remove P [] i h = tt
  All-swap_remove P (x ∷ []) zero h = tt
  All-swap_remove P (x ∷ y ∷ ys) zero h = let r = All-split_last P y ys h.1.0 h.1.1 in (r.1, r.0)
  All-swap_remove P (x ∷ xs) (suc i) h = (h.0, All-swap_remove P xs i h.1)

  pub All-get_elem? :
      (P : A → Type 0) (xs : List A) (i : ℕ) (x : A) → get_elem? xs i ≡ some x → All P xs → P x
  All-get_elem? P [] i x e h = cc e
  All-get_elem? P (y ∷ xs) zero x e h = let q : y ≡ x = cc e in subst P q h.0
  All-get_elem? P (y ∷ xs) (suc i) x e h = All-get_elem? P xs i x e h.1

module _ {A : Type 0} (id : A → String) where
  abbrev pub Apart : A → List A → Type 0
  Apart a xs = All (λ y. (id a == id y) ≡ false) xs

  unfoldable pub Distinct : List A → Type 0
  Distinct [] = Unit
  Distinct (x ∷ xs) = Apart x xs × Distinct xs

  swapped : (a b : A) → (id a == id b) ≡ false → (id b == id a) ≡ false
  swapped a b h = ground (arith, h, eq_iff (id a) (id b), eq_iff (id b) (id a))

  split_last-Distinct :
      (x : A) (xs : List A)
      → Apart x xs
      → Distinct xs
      → Apart ((split_last x xs).1) ((split_last x xs).0) × Distinct ((split_last x xs).0)
  unfolding Distinct
  split_last-Distinct x [] a d = (tt, tt)
  split_last-Distinct x (y ∷ ys) a d =
      let r = split_last-Distinct y ys d.0 d.1 in
      let s = All-split_last (λ z. (id x == id z) ≡ false) y ys a.0 a.1 in
      ((swapped x ((split_last y ys).1) s.1, r.0), (s.0, r.1))

  pub swap_remove-Distinct : (xs : List A) (i : ℕ) → Distinct xs → Distinct (swap_remove xs i)
  unfolding Distinct
  swap_remove-Distinct [] i d = tt
  swap_remove-Distinct (x ∷ []) zero d = tt
  swap_remove-Distinct (x ∷ y ∷ ys) zero d = split_last-Distinct y ys d.1.0 d.1.1
  swap_remove-Distinct (x ∷ xs) (suc i) d =
      (All-swap_remove (λ z. (id x == id z) ≡ false) xs i d.0, swap_remove-Distinct xs i d.1)

  -- what is removed is gone
  pub swap_remove-Apart :
      (xs : List A) (i : ℕ) (x : A)
      → get_elem? xs i ≡ some x
      → Distinct xs
      → Apart x (swap_remove xs i)
  unfolding Distinct
  swap_remove-Apart [] i x e d = tt
  swap_remove-Apart (y ∷ []) zero x e d = tt
  swap_remove-Apart (y ∷ z ∷ zs) zero x e d =
      let q : y ≡ x = cc e in
      let r = All-split_last (λ w. (id y == id w) ≡ false) z zs d.0.0 d.0.1 in
      subst (λ x. Apart x (swap_remove (y ∷ z ∷ zs) zero)) q (r.1, r.0)
  swap_remove-Apart (y ∷ xs) (suc i) x e d = (
    swapped y x (All-get_elem? (λ z. (id y == id z) ≡ false) xs i x e d.0),
    swap_remove-Apart xs i x e d.1,
  )
