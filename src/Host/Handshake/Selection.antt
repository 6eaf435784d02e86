-- ===== src/Host/Handshake/Selection.antt =====
-- The negotiated version against its description: the greatest version that both sides speak.
use meepo.Prelude.{ℕ, min, ◌≤◌, ◌≡◌, ok, arith}
use meepo.Host.Handshake.{negotiate_protocol}

-- Both sides speak the version.
abbrev pub Common : ℕ → ℕ → ℕ → ℕ → ℕ → Type 0
Common a b c d v = (a ≤ v) × (v ≤ b) × (c ≤ v) × (v ≤ d)

-- A version that is chosen lies in both ranges, and no other version of both is greater.
pub selected_greatest :
    (a b c d v : ℕ)
    → negotiate_protocol a b c d ≡ ok v
    → Common a b c d v × ((w : ℕ) → Common a b c d w → w ≤ v)
unfolding negotiate_protocol
selected_greatest a b c d v h = (ground arith, λ w k. ground arith)

-- If some version lies in both ranges, one is chosen.
selected_exists : (a b c d w : ℕ) → Common a b c d w → (v : ℕ) × (negotiate_protocol a b c d ≡ ok v)
unfolding negotiate_protocol
selected_exists a b c d w h = (min b d, ground arith)
