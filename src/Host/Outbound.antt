-- ===== src/Host/Outbound.antt =====
-- crates/meepo-host/src/transport/outbound.rs: the bounded outbound queue of a connection. `F` is
-- `serde_json::Value`; `to_vec_len` is the length of its serialization, `none` where that fails. The
-- drain task and the callers interleave: a `Writer` holds the locked state, the place where the
-- task stands, the permit of the `Notify` and what the sink was handed, and an `Action` is one
-- critical section of either side. The `flushed` receivers are not modelled.
pub mod Fifo
pub mod Bounds
pub mod Wakeup
use meepo.Prelude.{
  ℕ, suc, ◌+◌, ◌*◌, ◌-◌, ◌^◌, Bool, true, false, not, Option, none, some, List, [], ◌∷◌, ◌++◌,
  length, leb, ltb, if◌then◌else◌, Result, ok, err,
}
use Prim.Native.Nat.{◌%◌}

abbrev pub max_queued_frames : ℕ
max_queued_frames = 64

abbrev pub max_queued_bytes : ℕ
max_queued_bytes = 2097152

-- `usize::MAX`
abbrev pub usize_max : ℕ
usize_max = 2 ^ 64 - 1

-- The arguments are `queued` and `cap`.
pub data OutboundQueueError : Type 0 where
  frame_limit : ℕ → ℕ → OutboundQueueError
  byte_limit : ℕ → ℕ → OutboundQueueError
  closed : OutboundQueueError

pub record Item (F : Type 0) : Type 0 where
  pub frame : F
  pub size : ℕ

-- where the drain task stands: before the pop, before its look at `closed` with nothing popped, at
-- `notified().await`, at `sink.send(frame).await`, or behind the loop (with the frame that the sink
-- refused)
pub data Phase (F : Type 0) : Type 0 where
  popping : Phase F
  found_empty : Phase F
  waiting : Phase F
  sending : F → Phase F
  stopped : Option F → Phase F

pub record Writer (F : Type 0) : Type 0 where
  pub items : List (Item F)
  pub queued_bytes : ℕ
  pub closed : Bool
  pub phase : Phase F
  pub permit : Bool
  pub written : List F

pub data Action (F : Type 0) : Type 0 where
  -- of a caller
  enqueue_frame : F → Action F
  close_writer : Action F
  -- the drain task goes on; at a send, the argument says whether the sink takes the frame
  drain_task : Bool → Action F

abbrev or_usize_max : Option ℕ → ℕ
or_usize_max none = usize_max
or_usize_max (some n) = n + 1

module _ {F : Type 0} where
  unfoldable pub frame_bytes : (F → Option ℕ) → F → ℕ
  frame_bytes to_vec_len v = or_usize_max (to_vec_len v)

  unfoldable pub new : Writer F
  new = record {
    items = [];
    queued_bytes = 0;
    closed = false;
    phase = popping;
    permit = false;
    written = [];
  }

  -- `queued_bytes + size` wraps around as a `usize` does in a release build.
  unfoldable pub enqueue : (F → Option ℕ) → F → Writer F → Result (Writer F) OutboundQueueError
  unfolding frame_bytes
  enqueue to_vec_len frame w =
      let size = frame_bytes to_vec_len frame in
      if w.closed
      then err OutboundQueueError.closed
      else if leb max_queued_frames (length w.items)
      then err (frame_limit (length w.items) max_queued_frames)
      else if ltb max_queued_bytes ((w.queued_bytes + size) % (2 ^ 64))
      then err (byte_limit w.queued_bytes max_queued_bytes)
      else ok (record w {
        items = w.items ++ record { frame = frame; size = size } ∷ [];
        queued_bytes = (w.queued_bytes + size) % (2 ^ 64);
        permit = true;
      })

  unfoldable pub close : Writer F → Writer F
  close w = record w { closed = true; permit = true }

  -- one round up to the await: the head of the queue goes to the sink
  abbrev pub pop_front : List (Item F) → Writer F → Writer F
  pop_front [] w = record w { phase = found_empty }
  pop_front (it ∷ its) w = record w {
    items = its;
    queued_bytes = w.queued_bytes - it.size;
    phase = sending it.frame;
  }

  abbrev pub stop : Option F → Writer F → Writer F
  stop lost w = record w { closed = true; phase = stopped lost }

  -- the drain task's next critical section, where `none` says that it cannot go on
  abbrev pub drain : Bool → Phase F → Writer F → Option (Writer F)
  drain sink_ok popping w = some (pop_front w.items w)
  drain sink_ok found_empty w =
      some (if w.closed then stop none w else record w { phase = waiting })
  drain sink_ok waiting w =
      if w.permit then some (record w { permit = false; phase = popping }) else none
  drain sink_ok (sending frame) w = some (
      if sink_ok
      then record w { written = w.written ++ frame ∷ []; phase = popping }
      else stop (some frame) w)
  drain sink_ok (stopped lost) w = none

  abbrev pub or_unchanged : Writer F → Result (Writer F) OutboundQueueError → Writer F
  or_unchanged w (ok w') = w'
  or_unchanged w (err e) = w

  unfoldable pub step : (F → Option ℕ) → Action F → Writer F → Option (Writer F)
  unfolding enqueue close
  step to_vec_len (enqueue_frame frame) w = some (or_unchanged w (enqueue to_vec_len frame w))
  step to_vec_len close_writer w = some (close w)
  step to_vec_len (drain_task sink_ok) w = drain sink_ok w.phase w

  abbrev pub continue_with : (Writer F → Option (Writer F)) → Option (Writer F) → Option (Writer F)
  continue_with k none = none
  continue_with k (some w) = k w

  -- A schedule: `none` if some action of it is not possible.
  unfoldable pub run_schedule : (F → Option ℕ) → List (Action F) → Writer F → Option (Writer F)
  unfolding step
  run_schedule to_vec_len [] w = some w
  run_schedule to_vec_len (a ∷ rest) w =
      continue_with (run_schedule to_vec_len rest) (step to_vec_len a w)
