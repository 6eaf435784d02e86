-- ===== src/Prelude/Counting.antt =====
-- Lists of numbers that count up one by one.
use Prim.Native.Nat.{ℕ, suc, ◌+◌}
use mathlib.Core.Path.{◌≡◌, subst}
use mathlib.Core.List.{List, [], ◌∷◌, ◌++◌}
use native.Mathlib.Omega.{arith}
use meepo.Prelude.Lists.{length}

-- the numbers from `k` on
unfoldable pub CountsFrom : ℕ → List ℕ → Type 0
CountsFrom k [] = Unit
CountsFrom k (n ∷ ns) = (n ≡ k) × CountsFrom (suc k) ns

pub CountsFrom-push :
    (k : ℕ) (ns : List ℕ) → CountsFrom k ns → CountsFrom k (ns ++ (k + length ns) ∷ [])
unfolding CountsFrom
CountsFrom-push k [] h = (omega arith, tt)
CountsFrom-push k (n ∷ ns) h =
    let q : suc k + length ns ≡ k + suc (length ns) = omega arith in
    (h.0, subst (λ m. CountsFrom (suc k) (ns ++ m ∷ [])) q (CountsFrom-push (suc k) ns h.1))

pub CountsFrom-next : (ns : List ℕ) → CountsFrom 1 ns → CountsFrom 1 (ns ++ suc (length ns) ∷ [])
CountsFrom-next ns h =
    let q : 1 + length ns ≡ suc (length ns) = omega arith in
    subst (λ m. CountsFrom 1 (ns ++ m ∷ [])) q (CountsFrom-push 1 ns h)
