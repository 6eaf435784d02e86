-- ===== src/Examples/Continuity.antt =====
-- Runs of the continuity coordinator over a bounded queue. A snapshot and a turn serialize to texts.
use meepo.Prelude.{
  ◌≡◌, refl, sym, subst, String, some, List, [], ◌∷◌, ◌++◌, append_assoc, length, leb, Bool-cases,
  inl, inr,
}
use meepo.Examples.{sample_event, sample_complete}
use meepo.Host.Continuity.Channels.{ChannelLaws, BoundedQueue, bounded_queue, push, pop}
use meepo.Host.Continuity.Snapshot.{SubscriptionFrame, SessionContinuitySnapshot}
use meepo.Prelude.Dict.{get, insert}
use meepo.Host.Continuity.{open_subscription}
use meepo.Host.Continuity.Actions.{
  take_action, SessionContinuityCoordinator, ContinuityAction, open_action, close_action,
  event_action, pending_action, receive_action, FreshIds, run_actions,
}
use meepo.Host.Continuity.Delivery.{Sound, run_actions-Sound}

abbrev Frame : Type 0
Frame = SubscriptionFrame String

-- what was received and what is queued
abbrev taken_frames : BoundedQueue Frame → List Frame
taken_frames q = q.received ++ q.queued

some_queue : {x y : BoundedQueue Frame} → some x ≡ some y → x ≡ y
some_queue h = cc h

push-taken :
    (f : Frame) (q q' : BoundedQueue Frame)
    → push f q ≡ some q'
    → taken_frames q' ≡ taken_frames q ++ f ∷ []
push-taken f q q' h = elim (Bool-cases (leb q.capacity (length q.queued))) [
  | inl k ↦ cc (rw k at h)
  | inr k ↦
      let e = some_queue (rw k at h) in
      subst (λ x. taken_frames x ≡ taken_frames q ++ f ∷ []) e
        (sym (append_assoc q.received q.queued (f ∷ [])))
]

pop-taken :
    (fs : List Frame) (q : BoundedQueue Frame)
    → q.queued ≡ fs
    → taken_frames (pop fs q) ≡ taken_frames q
pop-taken [] q h = refl
pop-taken (f ∷ fs) q h = rw h (append_assoc q.received (f ∷ []) fs)

abbrev queue_laws : ChannelLaws (bounded_queue Frame)
queue_laws = record {
  sent = taken_frames;
  sent-channel = λ n. refl;
  sent-try_send = push-taken;
  sent-receive = λ m q. pop-taken q.queued q refl;
}

abbrev snapshot_text : SessionContinuitySnapshot String → String
snapshot_text s = s.session_id

abbrev turn_text : String → String → String → String
turn_text turn run status = status

abbrev nobody : SessionContinuityCoordinator (bounded_queue Frame)
nobody = record { sessions = []; detached = [] }

-- Two clients open, a turn ends, one of them reads and closes, and prompts are published.
abbrev sample_actions : List (ContinuityAction (bounded_queue Frame))
sample_actions =
    open_action "a" "s"
    ∷ open_action "b" "s"
    ∷ event_action "s" "run-1" "epoch" (sample_event sample_complete)
    ∷ receive_action "a" tt
    ∷ close_action "a" "epoch"
    ∷ pending_action "s" "epoch" ("prompt" ∷ [])
    ∷ []

fresh_ids : FreshIds (bounded_queue Frame) snapshot_text turn_text sample_actions nobody
unfolding take_action open_subscription get insert
fresh_ids = (tt, (((refl, tt), tt), (tt, (tt, (tt, (tt, tt))))))

run_actions-Sound_example :
    Sound
      (bounded_queue Frame)
      queue_laws
      (run_actions (bounded_queue Frame) snapshot_text turn_text sample_actions nobody)
run_actions-Sound_example =
    run_actions-Sound (bounded_queue Frame) queue_laws snapshot_text turn_text sample_actions nobody
      fresh_ids (record { attached = tt; detached = tt })
