-- ===== src/Host/Outbound/Wakeup.antt =====
-- When the drain task stops and when it waits.
use mathlib.Core.Bool.{false≢true}
use Prim.Native.Nat.{◌%◌}
use meepo.Host.Outbound.Bounds.{none≢some}
use meepo.Prelude.{
  ◌&&◌, not, ◌+◌, ◌^◌, ◌≤◌, ℕ, ◌≡◌, refl, sym, ◌∙◌, Bool, true, false, Option, none, some, List, [],
  ◌∷◌, is_empty, Result, ok, err, Bool-cases, inl, inr, arith, subst, map,
}
use meepo.Host.Outbound.{
  max_queued_bytes, OutboundQueueError, drain_task, enqueue_frame, close_writer, Writer, Phase,
  Action, Item, enqueue, step, run_schedule, new, drain, or_unchanged, frame_bytes, pop_front,
  continue_with,
}

module _ {F : Type 0} where
  -- Where work is left for a task that looks for it no more before it waits, a permit is there.
  Ready : Phase F → List (Item F) → Bool → Bool → Type 0
  Ready Phase.found_empty items closed permit = is_empty items ≡ false → permit ≡ true
  Ready Phase.waiting items closed permit = (is_empty items && not closed) ≡ false → permit ≡ true
  Ready _ items closed permit = Unit

  abbrev IsReady : Writer F → Type 0
  IsReady w = Ready w.phase w.items w.closed w.permit

  permit-Ready : (p : Phase F) (items : List (Item F)) (c : Bool) → Ready p items c true
  unfolding Ready
  permit-Ready Phase.popping items c = tt
  permit-Ready Phase.found_empty items c = λ h. refl
  permit-Ready Phase.waiting items c = λ h. refl
  permit-Ready (Phase.sending f) items c = tt
  permit-Ready (Phase.stopped f) items c = tt

  enqueue-permit :
      (to_vec_len : F → Option ℕ) (frame : F) (w v : Writer F)
      → enqueue to_vec_len frame w ≡ ok v
      → v.permit ≡ true
  unfolding enqueue
  enqueue-permit to_vec_len frame w v h = ground (arith, h)

  enqueue-Ready :
      (to_vec_len : F → Option ℕ) (frame : F) (w : Writer F)
      → IsReady w
      → IsReady (or_unchanged w (enqueue to_vec_len frame w))
  enqueue-Ready to_vec_len frame w r = go (enqueue to_vec_len frame w) refl
    where
      go :
          (o : Result (Writer F) OutboundQueueError)
          → enqueue to_vec_len frame w ≡ o
          → IsReady (or_unchanged w o)
      go (ok v) e =
          subst (λ b. Ready v.phase v.items v.closed b)
            (sym (enqueue-permit to_vec_len frame w v e)) (permit-Ready v.phase v.items v.closed)
      go (err x) e = r

  some-Ready : {x : Writer F} (w' : Writer F) → some x ≡ some w' → IsReady x → IsReady w'
  some-Ready {x} w' h b = let q : x ≡ w' = cc h in subst IsReady q b

  pop-Ready : (its : List (Item F)) (w : Writer F) → w.items ≡ its → IsReady (pop_front its w)
  unfolding Ready
  pop-Ready [] w e = λ h. ground (arith, e, h)
  pop-Ready (it ∷ its) w e = tt

  drain-Ready :
      (sink_ok : Bool) (p : Phase F) (w w' : Writer F)
      → w.phase ≡ p
      → drain sink_ok p w ≡ some w'
      → IsReady w
      → IsReady w'
  unfolding Ready
  drain-Ready sink_ok Phase.popping w w' e h r = some-Ready w' h (pop-Ready w.items w refl)
  drain-Ready sink_ok Phase.found_empty w w' e h r = elim (Bool-cases w.closed) [
    | inl c ↦ some-Ready w' (rw c at h) tt
    | inr c ↦ some-Ready w' (rw c at h) (λ k. let r' = (rw e at r) in r' (ground (arith, c, k)))
  ]
  drain-Ready sink_ok Phase.waiting w w' e h r = elim (Bool-cases w.permit) [
    | inl c ↦ some-Ready w' (rw c at h) tt
    | inr c ↦ absurd (none≢some (rw c at h))
  ]
  drain-Ready true (Phase.sending f) w w' e h r = some-Ready w' h tt
  drain-Ready false (Phase.sending f) w w' e h r = some-Ready w' h tt
  drain-Ready sink_ok (Phase.stopped f) w w' e h r = absurd (none≢some h)

  step-Ready :
      (to_vec_len : F → Option ℕ) (a : Action F) (w w' : Writer F)
      → step to_vec_len a w ≡ some w'
      → IsReady w
      → IsReady w'
  unfolding step
  step-Ready to_vec_len (Action.enqueue_frame frame) w w' h r =
      some-Ready w' h (enqueue-Ready to_vec_len frame w r)
  step-Ready to_vec_len Action.close_writer w w' h r =
      some-Ready w' h (permit-Ready w.phase w.items true)
  step-Ready to_vec_len (Action.drain_task sink_ok) w w' h r =
      drain-Ready sink_ok w.phase w w' refl h r

  after-Ready :
      (to_vec_len : F → Option ℕ) (a : Action F) (acts : List (Action F)) (w w' : Writer F)
      (o : Option (Writer F))
      → step to_vec_len a w ≡ o
      → ((v : Writer F) → run_schedule to_vec_len acts v ≡ some w' → IsReady v → IsReady w')
      → continue_with (run_schedule to_vec_len acts) o ≡ some w'
      → IsReady w
      → IsReady w'
  after-Ready to_vec_len a acts w w' none e ih k b = absurd (none≢some k)
  after-Ready to_vec_len a acts w w' (some v) e ih k b = ih v k (step-Ready to_vec_len a w v e b)

  run-Ready :
      (to_vec_len : F → Option ℕ) (acts : List (Action F)) (w w' : Writer F)
      → run_schedule to_vec_len acts w ≡ some w'
      → IsReady w
      → IsReady w'
  unfolding run_schedule
  run-Ready to_vec_len [] w w' h b = some-Ready w' h b
  run-Ready to_vec_len (a ∷ acts) w w' h b =
      after-Ready to_vec_len a acts w w' (step to_vec_len a w) refl
        (λ v. run-Ready to_vec_len acts v w') h b

  -- what it means that the task cannot go on
  abbrev pub Quiet : Phase F → List (Item F) → Bool → Type 0
  Quiet (Phase.stopped lost) items closed = Unit
  Quiet Phase.waiting items closed = (items ≡ []) × (closed ≡ false)
  Quiet _ items closed = ⊥

  idle :
      (items : List (Item F)) (c permit : Bool)
      → permit ≡ false
      → ((is_empty items && not c) ≡ false → permit ≡ true)
      → (items ≡ []) × (c ≡ false)
  idle [] false permit p r = (refl, refl)
  idle [] true permit p r = absurd (false≢true (sym p ∙ r refl))
  idle (it ∷ its) c permit p r = absurd (false≢true (sym p ∙ r refl))

  stuck-Quiet :
      (sink_ok : Bool) (p : Phase F) (w : Writer F)
      → w.phase ≡ p
      → drain sink_ok p w ≡ none
      → Ready p w.items w.closed w.permit
      → Quiet p w.items w.closed
  unfolding Ready
  stuck-Quiet sink_ok Phase.popping w e h r = absurd (none≢some (sym h))
  stuck-Quiet sink_ok Phase.found_empty w e h r = absurd (none≢some (sym h))
  stuck-Quiet sink_ok Phase.waiting w e h r = elim (Bool-cases w.permit) [
    | inl c ↦ absurd (none≢some (sym (rw c at h)))
    | inr c ↦ idle w.items w.closed w.permit c r
  ]
  stuck-Quiet sink_ok (Phase.sending f) w e h r = absurd (none≢some (sym h))
  stuck-Quiet sink_ok (Phase.stopped f) w e h r = tt

  -- No wake-up is lost. Under every schedule from a new writer, a drain task that cannot go on has
  -- stopped, or it waits on a queue that is empty and not closed.
  pub run_schedule-Quiet :
      (to_vec_len : F → Option ℕ) (acts : List (Action F)) (w : Writer F) (sink_ok : Bool)
      → run_schedule to_vec_len acts new ≡ some w
      → drain sink_ok w.phase w ≡ none
      → Quiet w.phase w.items w.closed
  unfolding new Ready
  run_schedule-Quiet to_vec_len acts w sink_ok h k =
      stuck-Quiet sink_ok w.phase w refl k (run-Ready to_vec_len acts new w h tt)

  -- A drain task that found the queue empty looks at `closed` in a second critical section. If a
  -- caller's frame is accepted and the writer is closed in between, the task stops with the frame in
  -- the queue: the frame was accepted and is never handed to the sink.
  pub accepted_unwritten :
      (to_vec_len : F → Option ℕ) (frame : F)
      → frame_bytes to_vec_len frame ≤ max_queued_bytes
      → (w : Writer F) × (run_schedule to_vec_len
            (drain_task true ∷ enqueue_frame frame ∷ close_writer ∷ drain_task true ∷ [])
            new
          ≡ some w)
        × (w.phase ≡ Phase.stopped none)
        × (map (λ it. it.frame) w.items ≡ frame ∷ [])
        × (w.written ≡ [])
        × ((sink_ok : Bool) → drain sink_ok w.phase w ≡ none)
  unfolding run_schedule enqueue new
  accepted_unwritten to_vec_len frame h = (
    record {
      items = record { frame = frame; size = frame_bytes to_vec_len frame } ∷ [];
      queued_bytes = (0 + frame_bytes to_vec_len frame) % (2 ^ 64);
      closed = true;
      phase = Phase.stopped none;
      permit = true;
      written = [];
    },
    ground (arith, h),
    refl,
    refl,
    refl,
    λ sink_ok. refl,
  )
