-- ===== src/Host/Outbound/Bounds.antt =====
-- The bounds of the queue: how many frames and bytes it holds at most, and that the counter of bytes
-- is the sum of the sizes.
use Prim.Native.Nat.{◌%◌}
use meepo.Prelude.{
  ◌+◌, ◌^◌, ◌<◌, ◌≤◌, ℕ, ◌≡◌, refl, Bool, true, false, Option, none, some, List, [], ◌∷◌, ◌++◌,
  length, length-append, Bool-cases, inl, inr, arith, subst, leb, ltb,
}
use meepo.Host.Outbound.{
  Writer, Phase, Action, Item, enqueue, step, run_schedule, new, drain, or_unchanged,
  max_queued_frames, max_queued_bytes, pop_front, frame_bytes, continue_with,
}

module _ {F : Type 0} where
  unfoldable pub total_size : List (Item F) → ℕ
  total_size [] = 0
  total_size (it ∷ its) = it.size + total_size its

  total_size-push :
      (its : List (Item F)) (it : Item F) → total_size (its ++ it ∷ []) ≡ total_size its + it.size
  unfolding total_size
  total_size-push [] it = omega arith
  total_size-push (x ∷ its) it = omega (arith, total_size-push its it)

  pub record BoundedQueue (items : List (Item F)) (queued_bytes : ℕ) : Type 0 where
    counted : queued_bytes ≡ total_size items
    few_bytes : queued_bytes ≤ max_queued_bytes
    few_frames : length items ≤ max_queued_frames

  abbrev pub Bounded : Writer F → Type 0
  Bounded w = BoundedQueue w.items w.queued_bytes

  -- No frame is longer than a Rust allocation can be, and every frame can be serialized.
  abbrev pub Serializes : (F → Option ℕ) → Type 0
  Serializes to_vec_len = (f : F) → (n : ℕ) × (to_vec_len f ≡ some n) × (n < 2 ^ 63)

  size_bound :
      (to_vec_len : F → Option ℕ)
      → Serializes to_vec_len
      → (f : F) → frame_bytes to_vec_len f ≤ 2 ^ 63
  unfolding frame_bytes
  size_bound to_vec_len h f = let (n, e, b) = h f in rw e (omega (arith, b))

  enqueue-Bounded :
      (to_vec_len : F → Option ℕ)
      → Serializes to_vec_len
      → (frame : F) (w : Writer F) → Bounded w
      → Bounded (or_unchanged w (enqueue to_vec_len frame w))
  unfolding enqueue
  enqueue-Bounded to_vec_len s frame w b = elim (Bool-cases w.closed) [
    | inl c ↦ rw c b
    | inr c ↦ rw c (elim (Bool-cases (leb max_queued_frames (length w.items))) [
      | inl l ↦ rw l b
      | inr l ↦
          rw l
            (elim (Bool-cases
              (ltb max_queued_bytes ((w.queued_bytes + frame_bytes to_vec_len frame) % (2 ^ 64)))) [
                | inl m ↦ rw m b
                | inr m ↦ rw m (
                    let z = size_bound to_vec_len s frame in
                    record {
                      counted = omega (
                        arith,
                        b.counted,
                        b.few_bytes,
                        z,
                        total_size-push w.items
                            (record { frame = frame; size = frame_bytes to_vec_len frame }),
                      );
                      few_bytes = ground arith;
                      few_frames = ground (
                        arith,
                        length-append w.items
                            (record { frame = frame; size = frame_bytes to_vec_len frame } ∷ []),
                      );
                    })
              ])
    ])
  ]

  pop-Bounded :
      (its : List (Item F)) (w : Writer F) → w.items ≡ its → Bounded w → Bounded (pop_front its w)
  unfolding total_size
  pop-Bounded [] w e b = record {
    counted = b.counted;
    few_bytes = b.few_bytes;
    few_frames = b.few_frames;
  }
  pop-Bounded (it ∷ its) w e b = record {
    counted = let c = (rw e at b.counted) in omega (arith, c);
    few_bytes = omega (arith, b.few_bytes);
    few_frames = let c = (rw e at b.few_frames) in omega (arith, c);
  }

  pub none≢some : {w : Writer F} → none ≡ some w → ⊥
  none≢some h = ground (arith, h)

  some-Bounded : {x : Writer F} (w' : Writer F) → some x ≡ some w' → Bounded x → Bounded w'
  some-Bounded {x} w' h b = let q : x ≡ w' = cc h in subst Bounded q b

  drain-Bounded :
      (sink_ok : Bool) (p : Phase F) (w w' : Writer F)
      → drain sink_ok p w ≡ some w'
      → Bounded w
      → Bounded w'
  drain-Bounded sink_ok Phase.popping w w' h b = some-Bounded w' h (pop-Bounded w.items w refl b)
  drain-Bounded sink_ok Phase.found_empty w w' h b = elim (Bool-cases w.closed) [
    | inl c ↦ some-Bounded w' (rw c at h) b
    | inr c ↦ some-Bounded w' (rw c at h) b
  ]
  drain-Bounded sink_ok Phase.waiting w w' h b = elim (Bool-cases w.permit) [
    | inl c ↦ some-Bounded w' (rw c at h) b
    | inr c ↦ absurd (none≢some (rw c at h))
  ]
  drain-Bounded true (Phase.sending frame) w w' h b = some-Bounded w' h b
  drain-Bounded false (Phase.sending frame) w w' h b = some-Bounded w' h b
  drain-Bounded sink_ok (Phase.stopped lost) w w' h b = absurd (none≢some h)

  -- An action of a caller or of the drain task keeps the bounds, if frames serialize.
  step-Bounded :
      (to_vec_len : F → Option ℕ)
      → Serializes to_vec_len
      → (a : Action F) (w w' : Writer F) → step to_vec_len a w ≡ some w'
      → Bounded w
      → Bounded w'
  unfolding step
  step-Bounded to_vec_len s (Action.enqueue_frame frame) w w' h b =
      some-Bounded w' h (enqueue-Bounded to_vec_len s frame w b)
  step-Bounded to_vec_len s Action.close_writer w w' h b = some-Bounded w' h b
  step-Bounded to_vec_len s (Action.drain_task sink_ok) w w' h b =
      drain-Bounded sink_ok w.phase w w' h b

  run_after-Bounded :
      (to_vec_len : F → Option ℕ)
      → Serializes to_vec_len
      → (a : Action F) (acts : List (Action F)) (w w' : Writer F) (o : Option (Writer F))
      → step to_vec_len a w ≡ o
      → ((v : Writer F) → run_schedule to_vec_len acts v ≡ some w' → Bounded v → Bounded w')
      → continue_with (run_schedule to_vec_len acts) o ≡ some w'
      → Bounded w
      → Bounded w'
  run_after-Bounded to_vec_len s a acts w w' none e ih k b = absurd (none≢some k)
  run_after-Bounded to_vec_len s a acts w w' (some v) e ih k b =
      ih v k (step-Bounded to_vec_len s a w v e b)

  run-Bounded :
      (to_vec_len : F → Option ℕ)
      → Serializes to_vec_len
      → (acts : List (Action F)) (w w' : Writer F) → run_schedule to_vec_len acts w ≡ some w'
      → Bounded w
      → Bounded w'
  unfolding run_schedule
  run-Bounded to_vec_len s [] w w' h b = some-Bounded w' h b
  run-Bounded to_vec_len s (a ∷ acts) w w' h b =
      run_after-Bounded to_vec_len s a acts w w' (step to_vec_len a w) refl
        (λ v. run-Bounded to_vec_len s acts v w') h b

  -- If every frame serializes, then under every schedule from a new writer the queue holds at most 64
  -- frames and 2 MiB, and its counter of bytes is the sum of the sizes of what is queued.
  pub run_schedule-Bounded :
      (to_vec_len : F → Option ℕ)
      → Serializes to_vec_len
      → (acts : List (Action F)) (w : Writer F) → run_schedule to_vec_len acts new ≡ some w
      → (length w.items ≤ max_queued_frames)
        × (w.queued_bytes ≤ max_queued_bytes)
        × (w.queued_bytes ≡ total_size w.items)
  unfolding new total_size
  run_schedule-Bounded to_vec_len s acts w h =
      let b =
        run-Bounded to_vec_len s acts new w h
          (record { counted = refl; few_bytes = omega arith; few_frames = omega arith }) in
      (b.few_frames, b.few_bytes, b.counted)
