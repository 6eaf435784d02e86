-- ===== src/Host/Wire/Codec.antt =====
-- crates/meepo-host/src/protocol/codec.rs: frames as lines. A byte is a number; `V` is
-- `serde_json::Value`, and `Serde` stands for the functions of serde_json and of `std::str` that the
-- codec calls. Each call works on the buffer that it is given.
pub mod Streams
use meepo.Prelude.{◌>>=◌}
use meepo.Prelude.{
  ℕ, suc, ◌+◌, ◌≡◌, refl, sym, ap, subst, ◌∙◌, String, Bool, true, false, not, ◌||◌, ◌&&◌, Option,
  none, some, List, [], ◌∷◌, ◌++◌, append_assoc, append-nil, map, length, any, keep, ltb, leb,
  nat_eq, if◌then◌else◌, Result, ok, err, Bool-cases, Option-cases, inl, inr, arith, ◌==◌, eq_iff,
  eq_refl, ◌<◌, ◌≤◌, ◌↔◌,
}
use meepo.Prelude.{zero, get_elem?, take, drop, ◌-◌}
use meepo.Host.Wire.Errors.{
  ProtocolError, invalid_frame, frame_too_large, invalid_utf8, invalid_json,
}
use mathlib.Core.Option

abbrev pub max_frame_bytes : ℕ
max_frame_bytes = 98304

-- `to_vec` and `from_str` fail with a text, `from_utf8` without one.
pub record Serde (V : Type 0) : Type 0 where
  pub to_vec : V → Result (List ℕ) String
  pub from_utf8 : List ℕ → Option String
  pub from_str : String → Result V String

-- "\n" and "\r"
abbrev pub is_lf : ℕ → Bool
is_lf b = nat_eq b 10

abbrev pub is_cr : Option ℕ → Bool
is_cr none = false
is_cr (some b) = nat_eq b 13

-- `buf.iter().position(|&b| b == b'\n')`
unfoldable pub position_lf : List ℕ → Option ℕ
position_lf [] = none
position_lf (b ∷ buf) = if is_lf b then some 0 else Option.map suc (position_lf buf)

module _ {V : Type 0} (serde : Serde V) where
  abbrev parsed_value : Result V String → Result V ProtocolError
  parsed_value (ok v) = ok v
  parsed_value (err e) = err (invalid_json e)

  abbrev parsed_line : Option String → Result V ProtocolError
  parsed_line none = err invalid_utf8
  parsed_line (some s) = parsed_value (serde.from_str s)

  -- where the line ends: before a CR that stands before the LF
  abbrev pub line_end : List ℕ → ℕ → ℕ
  line_end buf lf = if is_cr (get_elem? buf (lf - 1)) then lf - 1 else lf

  abbrev pub decode_at : List ℕ → Option ℕ → Result (List ℕ × Option V) ProtocolError
  decode_at buf none =
      if ltb max_frame_bytes (length buf) then err frame_too_large else ok (buf, none)
  decode_at buf (some lf) =
      if nat_eq lf 0 || (nat_eq lf 1 && is_cr (get_elem? buf 0))
      then err invalid_frame
      else if ltb max_frame_bytes (lf + 1)
      then err frame_too_large
      else parsed_line (serde.from_utf8 (take (line_end buf lf) buf)) >>= λ v.
          ok (drop (lf + 1) buf, some v)

  -- the buffer that is left, and the frame if a whole one is there
  unfoldable pub decode : List ℕ → Result (List ℕ × Option V) ProtocolError
  unfolding position_lf
  decode buf = decode_at buf (position_lf buf)

  abbrev pub encode_json : List ℕ → Result (List ℕ) String → Result (List ℕ) ProtocolError
  encode_json buf (err e) = err (invalid_json e)
  encode_json buf (ok json) =
      if ltb max_frame_bytes (length json + 1)
      then err frame_too_large
      else ok (buf ++ json ++ 10 ∷ [])

  -- the buffer with the frame behind it
  unfoldable pub encode : V → List ℕ → Result (List ℕ) ProtocolError
  encode v buf = encode_json buf (serde.to_vec v)
