-- ===== src/Runtime/Checkpoint/Coverage.antt =====
-- A checkpoint against the ledger that it was built from: it verifies on every extension of its
-- prefix, and what it verifies on has its prefix.
use text.Mathlib.TextLemmas.{append_cancel_left}
use meepo.Prelude.{
  subst, ◌∙◌, ◌≡◌, refl, String, Option, none, some, List, ◌++◌, eq_iff, eq_refl, length,
  length-append, last, take, take-length-append, arith, ok, ◌≤◌,
}
use meepo.Prelude.Int.{ℤ}
use meepo.Prelude.Text.{join, show, trim}
use meepo.Core.Event.{RuntimeEvent}
use meepo.Runtime.Checkpoint.{
  turn_ids, HistoryCompactCheckpoint, build_checkpoint, verify_checkpoint_prefix, source_digest_of,
  digest_input, assemble,
}

module _ {V : Type 0} (canonical_json : RuntimeEvent V → String)
    (sha256_hex : String → String) where
  abbrev built :
      String
      → List (RuntimeEvent V)
      → String
      → Option String
      → ℤ
      → RuntimeEvent V
      → HistoryCompactCheckpoint
  built session_id covered trimmed previous now b = record {
    checkpoint_id = join "ckpt-" (join session_id (join "-" (show (length covered))));
    session_id = session_id;
    created_at_ts = now;
    event_count = length covered;
    turn_count = length (turn_ids covered);
    through_run_id = b.run_id;
    through_turn_id = b.turn_id;
    through_event_id = b.id;
    source_digest = source_digest_of canonical_json sha256_hex covered;
    summary = trimmed;
    previous_checkpoint_id = previous;
  }

  built-verify :
      (session_id trimmed : String) (covered more : List (RuntimeEvent V))
      (previous : Option String) (now : ℤ) (b : RuntimeEvent V)
      → last covered ≡ some b
      → verify_checkpoint_prefix canonical_json sha256_hex
          (built session_id covered trimmed previous now b)
          (covered ++ more)
        ≡ ok tt
  unfolding verify_checkpoint_prefix
  built-verify session_id trimmed covered more previous now b e =
      rw (take-length-append covered more, e)
        (ground (
          arith,
          length-append covered more,
          eq_refl b.run_id,
          eq_refl b.turn_id,
          eq_refl b.id,
          eq_refl (source_digest_of canonical_json sha256_hex covered),
        ))

  assemble-verify :
      (session_id trimmed : String) (covered more : List (RuntimeEvent V))
      (previous : Option String) (now : ℤ) (c : HistoryCompactCheckpoint)
      (o : Option (RuntimeEvent V))
      → last covered ≡ o
      → assemble canonical_json sha256_hex session_id covered trimmed previous now o ≡ some c
      → verify_checkpoint_prefix canonical_json sha256_hex c (covered ++ more) ≡ ok tt
  assemble-verify session_id trimmed covered more previous now c none e h = cc
  assemble-verify session_id trimmed covered more previous now c (some b) e h =
      let q : built session_id covered trimmed previous now b ≡ c = cc h in
      subst (λ c. verify_checkpoint_prefix canonical_json sha256_hex c (covered ++ more) ≡ ok tt) q
        (built-verify session_id trimmed covered more previous now b e)

  -- A checkpoint verifies on the events that it was built from, and on any ledger that goes on from
  -- them.
  pub verify-build :
      (session_id summary : String) (covered more : List (RuntimeEvent V))
      (previous : Option String) (now : ℤ) (c : HistoryCompactCheckpoint)
      → build_checkpoint canonical_json sha256_hex session_id covered summary previous now ≡ some c
      → verify_checkpoint_prefix canonical_json sha256_hex c (covered ++ more) ≡ ok tt
  unfolding build_checkpoint
  verify-build session_id summary covered more previous now c h =
      assemble-verify session_id (trim summary) covered more previous now c (last covered) refl
        (ground arith)

  assemble-digest :
      (session_id trimmed : String) (covered : List (RuntimeEvent V)) (previous : Option String)
      (now : ℤ) (c : HistoryCompactCheckpoint) (o : Option (RuntimeEvent V))
      → assemble canonical_json sha256_hex session_id covered trimmed previous now o ≡ some c
      → (c.event_count ≡ length covered)
        × (c.source_digest ≡ source_digest_of canonical_json sha256_hex covered)
  assemble-digest session_id trimmed covered previous now c none h = cc
  assemble-digest session_id trimmed covered previous now c (some b) h =
      (ground (arith, h), ground (arith, h))

  verify-digest :
      (c : HistoryCompactCheckpoint) (source : List (RuntimeEvent V))
      → verify_checkpoint_prefix canonical_json sha256_hex c source ≡ ok tt
      → source_digest_of canonical_json sha256_hex (take c.event_count source) ≡ c.source_digest
  unfolding verify_checkpoint_prefix
  verify-digest c source h = ground (
    arith,
    eq_iff (source_digest_of canonical_json sha256_hex (take c.event_count source)) c.source_digest,
  )

  verify-length :
      (c : HistoryCompactCheckpoint) (source : List (RuntimeEvent V))
      → verify_checkpoint_prefix canonical_json sha256_hex c source ≡ ok tt
      → c.event_count ≤ length source
  unfolding verify_checkpoint_prefix
  verify-length c source h = ground (arith, h)

  -- If the hash has no collisions, a ledger that a checkpoint verifies on has at least as many events as
  -- the checkpoint covers, and the canonical texts of its first so many, each with its newline, make up
  -- the same text as those of the events that are covered.
  pub verify-covers :
      ((s t : String) → sha256_hex s ≡ sha256_hex t → s ≡ t)
      → (session_id summary : String) (covered source : List (RuntimeEvent V))
        (previous : Option String) (now : ℤ) (c : HistoryCompactCheckpoint)
      → build_checkpoint canonical_json sha256_hex session_id covered summary previous now ≡ some c
      → verify_checkpoint_prefix canonical_json sha256_hex c source ≡ ok tt
      → (length covered ≤ length source)
        × (digest_input canonical_json (take (length covered) source)
            ≡ digest_input canonical_json covered)
  unfolding build_checkpoint
  verify-covers collision_free session_id summary covered source previous now c h v =
      let (n, d) =
        assemble-digest session_id (trim summary) covered previous now c (last covered)
          (ground arith) in
      (
        subst (λ n. n ≤ length source) n (verify-length c source v),
        collision_free _ _ (
            append_cancel_left "sha256:" _ _ (
              subst
                (λ n. source_digest_of canonical_json sha256_hex (take n source) ≡ c.source_digest)
                n (verify-digest c source v)
              ∙ d)),
      )
