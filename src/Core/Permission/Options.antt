-- ===== src/Core/Permission/Options.antt =====
-- The loop of `strip_leading_options`: the fuel that it is given is enough.
use Prim.Native.Nat.{ℕ, zero, suc}
use Prim.Native.Char.{Char, code}
use meepo.Prelude.{
  ◌≡◌, ◌≤◌, ◌<◌, ◌+◌, refl, String, Bool, true, false, not, ◌&&◌, arith, Bool-cases, inl, inr,
}
use meepo.Prelude.Text.{trim_start, is_whitespace, is_empty_text}
use meepo.Prelude.Words.{chars, break_at}
use meepo.Core.Permission.Shell.{is_option_token, strip_fuel, strip_leading_options}

chars-break_at :
    (p : Char → Bool) (s : String) → chars (break_at p s).0 + chars (break_at p s).1 ≡ chars s
unfolding break_at
chars-break_at p String.[] = omega arith
chars-break_at p (String.◌∷◌ c s) = elim (Bool-cases (p c)) [
  | inl k ↦ rw k (omega arith)
  | inr k ↦ rw k (omega (arith, chars-break_at p s))
]

chars-trim_start : (s : String) → chars (trim_start s) ≤ chars s
unfolding trim_start
chars-trim_start String.[] = omega arith
chars-trim_start (String.◌∷◌ c s) = elim (Bool-cases (is_whitespace (code c))) [
  | inl k ↦ rw k (omega (arith, chars-trim_start s))
  | inr k ↦ rw k (omega arith)
]

chars-nonempty : (s : String) → is_empty_text s ≡ false → 0 < chars s
chars-nonempty String.[] h = cc h
chars-nonempty (String.◌∷◌ c s) h = omega arith

-- Whether the text begins with a token that the loop takes.
abbrev pub starts_with_option : String → Bool
starts_with_option rest =
    let (token, tail) = break_at (λ c. is_whitespace (code c)) rest in
    not (is_empty_text token) && is_option_token token

chars-next :
    (s : String)
    → starts_with_option s ≡ true
    → chars (trim_start (break_at (λ c. is_whitespace (code c)) s).1) < chars s
chars-next s h =
    let p = λ (c : Char). is_whitespace (code c) in
    let t = (break_at p s).0 in
    let u = chars-nonempty t (ground (arith, h)) in
    omega (arith, u, chars-break_at p s, chars-trim_start (break_at p s).1)

strip_fuel-done : (n : ℕ) (s : String) → chars s ≤ n → starts_with_option (strip_fuel n s) ≡ false
unfolding strip_fuel break_at
strip_fuel-done zero String.[] h = refl
strip_fuel-done zero (String.◌∷◌ c s) h = absurd (omega (arith, h))
strip_fuel-done (suc n) s h = elim (Bool-cases (starts_with_option s)) [
  | inl k ↦ rw k (
      strip_fuel-done n (trim_start (break_at (λ c. is_whitespace (code c)) s).1)
        (omega (arith, h, chars-next s k)))
  | inr k ↦ rw k k
]

-- The loop that drops a wrapper's options comes to its end: what it leaves does not begin with an
-- option, an assignment or a duration.
pub strip_leading_options-done :
    (tail : String) → starts_with_option (strip_leading_options tail) ≡ false
unfolding strip_leading_options
strip_leading_options-done tail =
    strip_fuel-done (chars tail) (trim_start tail) (chars-trim_start tail)
