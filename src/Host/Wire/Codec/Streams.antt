-- ===== src/Host/Wire/Codec/Streams.antt =====
-- A stream of frames: what is encoded decodes to the same values, in order, whatever follows.
use meepo.Prelude.{◌>>=◌}
use meepo.Prelude.{
  ℕ, suc, ◌+◌, ◌≡◌, refl, sym, ap, ◌∙◌, String, false, ◌||◌, ◌&&◌, Option, none, some, List, [],
  ◌∷◌, ◌++◌, append_assoc, append-nil, length, any, ltb, nat_eq, Result, ok, err, Bool-cases, inl,
  inr, arith, ◌≤◌,
}
use meepo.Prelude.{zero, get_elem?, drop, last, is_empty, take-length-append, ◌-◌}
use meepo.Host.Wire.Errors.{ProtocolError}
use meepo.Host.Wire.Codec.{
  Serde, position_lf, is_lf, is_cr, decode, encode, encode_json, max_frame_bytes,
}

-- What the codec relies on: a serialized value is a line of JSON that is not empty, does not end in a
-- CR, and reads back.
pub record SerdeLaws {V : Type 0} (serde : Serde V) : Type 0 where
  pub one_line : (v : V) (json : List ℕ) → serde.to_vec v ≡ ok json → any is_lf json ≡ false
  pub no_cr : (v : V) (json : List ℕ) → serde.to_vec v ≡ ok json → is_cr (last json) ≡ false
  pub some_bytes : (v : V) (json : List ℕ) → serde.to_vec v ≡ ok json → is_empty json ≡ false
  pub reads_back :
      (v : V) (json : List ℕ)
      → serde.to_vec v ≡ ok json
      → (s : String) × (serde.from_utf8 json ≡ some s) × (serde.from_str s ≡ ok v)

position_lf-line :
    (json rest : List ℕ)
    → any is_lf json ≡ false
    → position_lf (json ++ 10 ∷ rest) ≡ some (length json)
unfolding position_lf
position_lf-line [] rest h = refl
position_lf-line (b ∷ json) rest h = elim (Bool-cases (is_lf b)) [
  | inl k ↦ cc (rw k at h)
  | inr k ↦ rw (k, position_lf-line json rest (rw k at h)) refl
]

position_lf-none : (rest : List ℕ) → any is_lf rest ≡ false → position_lf rest ≡ none
unfolding position_lf
position_lf-none [] h = refl
position_lf-none (b ∷ rest) h = elim (Bool-cases (is_lf b)) [
  | inl k ↦ cc (rw k at h)
  | inr k ↦ rw (k, position_lf-none rest (rw k at h)) refl
]

get-last :
    (b : ℕ) (json rest : List ℕ) → get_elem? (b ∷ json ++ rest) (length json) ≡ last (b ∷ json)
get-last b [] rest = refl
get-last b (x ∷ json) rest = get-last x json rest

drop-line : (json rest : List ℕ) → drop (suc (length json)) (json ++ 10 ∷ rest) ≡ rest
drop-line [] rest = refl
drop-line (b ∷ json) rest = drop-line json rest

first_cr :
    (b : ℕ) (json rest : List ℕ)
    → is_cr (last (b ∷ json)) ≡ false
    → (nat_eq (suc (length json)) 0
        || (nat_eq (suc (length json)) 1 && is_cr (get_elem? (b ∷ json ++ rest) 0)))
      ≡ false
first_cr b [] rest h = ground (arith, h)
first_cr b (x ∷ json) rest h = ground arith

no_cr-before :
    (b : ℕ) (json rest : List ℕ)
    → is_cr (last (b ∷ json)) ≡ false
    → is_cr (get_elem? (b ∷ json ++ rest) (suc (length json) - 1)) ≡ false
no_cr-before b json rest h =
    let q : suc (length json) - 1 ≡ length json = omega arith in rw (q, get-last b json rest) h

line_shape :
    (buf json line : List ℕ) → (buf ++ json ++ 10 ∷ []) ++ line ≡ buf ++ (json ++ 10 ∷ line)
line_shape buf json line =
    rw
      (
        append_assoc buf json (10 ∷ []),
        append_assoc buf (json ++ 10 ∷ []) line,
        append_assoc json (10 ∷ []) line,
      )
      refl

abbrev ok_bytes : List ℕ → Result (List ℕ) ProtocolError
ok_bytes bs = ok bs

same_bytes : {a b : List ℕ} → ok_bytes a ≡ ok_bytes b → b ≡ a
same_bytes h = cc h

module _ {V : Type 0} (serde : Serde V) (laws : SerdeLaws serde) where
  decode-line :
      (v : V) (json rest : List ℕ)
      → serde.to_vec v ≡ ok json
      → ltb max_frame_bytes (length json + 1) ≡ false
      → decode serde (json ++ 10 ∷ rest) ≡ ok (rest, some v)
  unfolding decode
  decode-line v [] rest h k = cc (laws.some_bytes v [] h)
  decode-line v (b ∷ json) rest h k =
      let (s, u, p) = laws.reads_back v (b ∷ json) h in
      let c = laws.no_cr v (b ∷ json) h in
      let d : suc (length json) + 1 ≡ suc (suc (length json)) = omega arith in
      rw
        (
          position_lf-line (b ∷ json) rest (laws.one_line v (b ∷ json) h),
          first_cr b json (10 ∷ rest) c,
          k,
        )
        (rw
          (
            no_cr-before b json (10 ∷ rest) c,
            take-length-append (b ∷ json) (10 ∷ rest),
            u,
            p,
            d,
            drop-line json rest,
          )
          refl)

  same_buffer : (buf out : List ℕ) → ok_bytes buf ≡ ok_bytes out → out ≡ buf ++ []
  same_buffer buf out h = let q : buf ≡ out = cc h in sym (append-nil buf ∙ q)

  encoded_line :
      (v : V) (buf out : List ℕ) (o : Result (List ℕ) String)
      → serde.to_vec v ≡ o
      → encode_json serde buf o ≡ ok out
      → (json : List ℕ) × (serde.to_vec v ≡ ok json)
        × (ltb max_frame_bytes (length json + 1) ≡ false)
        × (out ≡ buf ++ json ++ 10 ∷ [])
  encoded_line v buf out (err e) q h = cc h
  encoded_line v buf out (ok json) q h = elim (Bool-cases (ltb max_frame_bytes (length json + 1))) [
    | inl k ↦ cc (rw k at h)
    | inr k ↦ (json, q, k, same_bytes (rw k at h))
  ]

  encode-ok :
      (v : V) (buf out : List ℕ)
      → encode serde v buf ≡ ok out
      → (json : List ℕ) × (serde.to_vec v ≡ ok json)
        × (ltb max_frame_bytes (length json + 1) ≡ false)
        × (out ≡ buf ++ json ++ 10 ∷ [])
  unfolding encode
  encode-ok v buf out h = encoded_line v buf out (serde.to_vec v) refl h

  -- Frames are encoded one behind the other; the first that is refused ends it.
  unfoldable pub encode_all : List V → List ℕ → Result (List ℕ) ProtocolError
  unfolding encode
  encode_all [] buf = ok buf
  encode_all (v ∷ vs) buf = encode serde v buf >>= encode_all vs

  abbrev pub decoded_more :
      (List ℕ → Result (List V × List ℕ) ProtocolError)
      → List ℕ × Option V
      → Result (List V × List ℕ) ProtocolError
  decoded_more k (buf, none) = ok ([], buf)
  decoded_more k (buf, some v) = k buf >>= λ more. ok (v ∷ more.0, more.1)

  -- Up to `n` frames are decoded, until no whole frame is left.
  unfoldable pub decode_all : ℕ → List ℕ → Result (List V × List ℕ) ProtocolError
  unfolding decode
  decode_all zero buf = ok ([], buf)
  decode_all (suc n) buf = decode serde buf >>= decoded_more (decode_all n)

  decode-partial :
      (rest : List ℕ)
      → any is_lf rest ≡ false
      → length rest ≤ max_frame_bytes
      → decode serde rest ≡ ok (rest, none)
  unfolding decode
  decode-partial rest h b =
      let k : ltb max_frame_bytes (length rest) ≡ false = ground (arith, b) in
      rw (position_lf-none rest h, k) refl

  after-encode :
      (v : V) (vs : List V) (buf out : List ℕ) (o : Result (List ℕ) ProtocolError)
      → encode serde v buf ≡ o
      → ((b : List ℕ)
          → encode_all vs b ≡ ok out
          → (line : List ℕ) × (out ≡ b ++ line)
            × ((rest : List ℕ)
                → any is_lf rest ≡ false
                → length rest ≤ max_frame_bytes
                → decode_all (suc (length vs)) (line ++ rest) ≡ ok (vs, rest)))
      → (o >>= encode_all vs) ≡ ok out
      → (line : List ℕ) × (out ≡ buf ++ line)
        × ((rest : List ℕ)
            → any is_lf rest ≡ false
            → length rest ≤ max_frame_bytes
            → decode_all (suc (suc (length vs))) (line ++ rest) ≡ ok (v ∷ vs, rest))
  unfolding decode_all
  after-encode v vs buf out (err e) q ih h = cc h
  after-encode v vs buf out (ok b) q ih h =
      let (json, j, k, e) = encode-ok v buf b q in
      let (line, l, d) = ih b h in
      (
        json ++ 10 ∷ line,
        l ∙ (ap (λ x. x ++ line) e ∙ line_shape buf json line),
        λ rest n m.
            rw
              (
                append_assoc json (10 ∷ line) rest,
                decode-line v json (line ++ rest) j k,
                d rest n m,
              )
              refl,
      )

  encode_all-decodes :
      (vs : List V) (buf out : List ℕ)
      → encode_all vs buf ≡ ok out
      → (line : List ℕ) × (out ≡ buf ++ line)
        × ((rest : List ℕ)
            → any is_lf rest ≡ false
            → length rest ≤ max_frame_bytes
            → decode_all (suc (length vs)) (line ++ rest) ≡ ok (vs, rest))
  unfolding encode_all decode_all
  encode_all-decodes [] buf out h =
      ([], same_buffer buf out h, λ rest n m. rw (decode-partial rest n m) refl)
  encode_all-decodes (v ∷ vs) buf out h =
      after-encode v vs buf out _ refl (λ b. encode_all-decodes vs b out) h

  -- What is encoded, value after value, decodes to the same values in the same order: the decoder
  -- leaves alone the bytes of a partial frame that follow. The serializer is as `SerdeLaws` says.
  pub decode_all-encode_all :
      (vs : List V) (out rest : List ℕ)
      → encode_all vs [] ≡ ok out
      → any is_lf rest ≡ false
      → length rest ≤ max_frame_bytes
      → decode_all (suc (length vs)) (out ++ rest) ≡ ok (vs, rest)
  decode_all-encode_all vs out rest h n m =
      let (line, l, d) = encode_all-decodes vs [] out h in rw l (d rest n m)
