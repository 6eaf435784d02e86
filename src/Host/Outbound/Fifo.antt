-- ===== src/Host/Outbound/Fifo.antt =====
-- The order of the frames: what was accepted is what was handed to the sink, what the sink holds or
-- refused, and what is queued, in the order of acceptance.
use meepo.Prelude.{
  ◌^◌, ◌+◌, ℕ, ◌≡◌, refl, sym, ◌∙◌, Bool, true, false, Option, none, some, List, [], ◌∷◌, ◌++◌,
  append_assoc, append-nil, map, Result, ok, err, Bool-cases, inl, inr, ap, subst,
}
use Prim.Native.Nat.{◌%◌}
use meepo.Host.Outbound.{
  frame_bytes, max_queued_frames, max_queued_bytes, Writer, Phase, Action, Item, enqueue, step,
  run_schedule, drain, or_unchanged, OutboundQueueError, sending, stopped, leb, popping,
  max_queued_frames, pop_front, length, ltb, max_queued_bytes, found_empty, waiting, continue_with,
}

module _ {F : Type 0} where
  abbrev pub in_flight : Phase F → List F
  in_flight (sending frame) = frame ∷ []
  in_flight (stopped (some frame)) = frame ∷ []
  in_flight _ = []

  -- All frames that the writer has taken, the oldest first.
  abbrev pub taken_frames : Writer F → List F
  taken_frames w = w.written ++ (in_flight w.phase ++ map (λ it. it.frame) w.items)

  abbrev accepted_by : F → Result (Writer F) OutboundQueueError → List F
  accepted_by frame (ok w) = frame ∷ []
  accepted_by frame (err e) = []

  -- the frame that an action adds, if it is an enqueue that succeeds
  unfoldable pub accepts : (F → Option ℕ) → Action F → Writer F → List F
  unfolding enqueue
  accepts to_vec_len (Action.enqueue_frame frame) w = accepted_by frame (enqueue to_vec_len frame w)
  accepts to_vec_len a w = []

  abbrev accepted_from : (Writer F → List F) → Option (Writer F) → List F
  accepted_from k none = []
  accepted_from k (some w) = k w

  -- The frames that a schedule's successful enqueues add, in the order of the schedule.
  unfoldable pub accepted : (F → Option ℕ) → List (Action F) → Writer F → List F
  unfolding accepts step
  accepted to_vec_len [] w = []
  accepted to_vec_len (a ∷ rest) w =
      accepts to_vec_len a w ++ accepted_from (accepted to_vec_len rest) (step to_vec_len a w)

  map-append :
      (xs ys : List (Item F))
      → map (λ it. it.frame) (xs ++ ys) ≡ map (λ it. it.frame) xs ++ map (λ it. it.frame) ys
  map-append [] ys = refl
  map-append (x ∷ xs) ys = ap (λ l. x.frame ∷ l) (map-append xs ys)

  pushed : (a b c d : List F) → a ++ (b ++ (c ++ d)) ≡ (a ++ (b ++ c)) ++ d
  pushed a b c d = sym (append_assoc a (b ++ c) d ∙ ap (λ l. a ++ l) (append_assoc b c d))

  enqueue-taken :
      (to_vec_len : F → Option ℕ) (frame : F) (w : Writer F)
      → taken_frames (or_unchanged w (enqueue to_vec_len frame w))
        ≡ taken_frames w ++ accepted_by frame (enqueue to_vec_len frame w)
  unfolding enqueue
  enqueue-taken to_vec_len frame w = elim (Bool-cases w.closed) [
    | inl c ↦ rw c (sym (append-nil (taken_frames w)))
    | inr c ↦ rw c (elim (Bool-cases (leb max_queued_frames (length w.items))) [
      | inl l ↦ rw l (sym (append-nil (taken_frames w)))
      | inr l ↦
          rw l
            (elim (Bool-cases
              (ltb max_queued_bytes ((w.queued_bytes + frame_bytes to_vec_len frame) % (2 ^ 64)))) [
                | inl b ↦ rw b (sym (append-nil (taken_frames w)))
                | inr b ↦
                    rw (b, map-append w.items _)
                      (pushed w.written (in_flight w.phase) (map (λ it. it.frame) w.items)
                        (frame ∷ []))
              ])
    ])
  ]

  pop-taken :
      (its : List (Item F)) (w : Writer F)
      → w.items ≡ its
      → w.phase ≡ popping
      → taken_frames (pop_front its w) ≡ taken_frames w
  pop-taken [] w h e = rw (h, e) refl
  pop-taken (it ∷ its) w h e = rw (h, e) refl

  some-taken :
      {x : Writer F} (w w' : Writer F)
      → some x ≡ some w'
      → taken_frames x ≡ taken_frames w
      → taken_frames w' ≡ taken_frames w
  some-taken {x} w w' h k =
      let q : x ≡ w' = cc h in subst (λ w'. taken_frames w' ≡ taken_frames w) q k

  -- every move of the drain task keeps the frames
  drain-taken :
      (sink_ok : Bool) (p : Phase F) (w w' : Writer F)
      → w.phase ≡ p
      → drain sink_ok p w ≡ some w'
      → taken_frames w' ≡ taken_frames w
  drain-taken sink_ok popping w w' e h = some-taken w w' h (pop-taken w.items w refl e)
  drain-taken sink_ok found_empty w w' e h = elim (Bool-cases w.closed) [
    | inl c ↦ some-taken w w' (rw c at h) (rw e refl)
    | inr c ↦ some-taken w w' (rw c at h) (rw e refl)
  ]
  drain-taken sink_ok waiting w w' e h = elim (Bool-cases w.permit) [
    | inl c ↦ some-taken w w' (rw c at h) (rw e refl)
    | inr c ↦ cc (rw c at h)
  ]
  drain-taken true (sending frame) w w' e h = some-taken w w' h (rw (e, append_assoc) refl)
  drain-taken false (sending frame) w w' e h = some-taken w w' h (rw e refl)
  drain-taken sink_ok (stopped lost) w w' e h = cc h

  step-taken :
      (to_vec_len : F → Option ℕ) (a : Action F) (w w' : Writer F)
      → step to_vec_len a w ≡ some w'
      → taken_frames w' ≡ taken_frames w ++ accepts to_vec_len a w
  unfolding step accepts
  step-taken to_vec_len (Action.enqueue_frame frame) w w' h =
      let q : or_unchanged w (enqueue to_vec_len frame w) ≡ w' = cc h in
      subst
        (λ w'. taken_frames w' ≡ taken_frames w ++ accepted_by frame (enqueue to_vec_len frame w)) q
        (enqueue-taken to_vec_len frame w)
  step-taken to_vec_len Action.close_writer w w' h =
      some-taken w w' h refl ∙ sym (append-nil (taken_frames w))
  step-taken to_vec_len (Action.drain_task sink_ok) w w' h =
      drain-taken sink_ok w.phase w w' refl h ∙ sym (append-nil (taken_frames w))

  after-taken :
      (to_vec_len : F → Option ℕ) (a : Action F) (acts : List (Action F)) (w w' : Writer F)
      (o : Option (Writer F))
      → step to_vec_len a w ≡ o
      → ((v : Writer F)
          → run_schedule to_vec_len acts v ≡ some w'
          → taken_frames w' ≡ taken_frames v ++ accepted to_vec_len acts v)
      → continue_with (run_schedule to_vec_len acts) o ≡ some w'
      → taken_frames w'
        ≡ taken_frames w ++ (accepts to_vec_len a w ++ accepted_from (accepted to_vec_len acts) o)
  after-taken to_vec_len a acts w w' none e ih k = cc k
  after-taken to_vec_len a acts w w' (some v) e ih k =
      ih v k
      ∙ ap (λ l. l ++ accepted to_vec_len acts v) (step-taken to_vec_len a w v e)
      ∙ append_assoc (taken_frames w) (accepts to_vec_len a w) (accepted to_vec_len acts v)

  -- Whatever the interleaving of the callers and the drain task, what the sink was handed, then what
  -- it holds or refused, then the queue, are the frames taken at the start and then the accepted ones,
  -- in the order of acceptance: none is lost, made up, doubled or overtaken.
  pub run_schedule-taken :
      (to_vec_len : F → Option ℕ) (acts : List (Action F)) (w w' : Writer F)
      → run_schedule to_vec_len acts w ≡ some w'
      → taken_frames w' ≡ taken_frames w ++ accepted to_vec_len acts w
  unfolding run_schedule accepted
  run_schedule-taken to_vec_len [] w w' h =
      some-taken w w' h refl ∙ sym (append-nil (taken_frames w))
  run_schedule-taken to_vec_len (a ∷ acts) w w' h =
      after-taken to_vec_len a acts w w' (step to_vec_len a w) refl
        (λ v k. run_schedule-taken to_vec_len acts v w' k) h
