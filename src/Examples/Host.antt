-- ===== src/Examples/Host.antt =====
-- Runs of the version choice and of the outbound queue.
use meepo.Prelude.{
  ◌≡◌, ◌≤◌, ◌++◌, refl, ℕ, Bool, true, Option, none, some, List, [], ◌∷◌, map, length, arith, false,
}
use meepo.Host.Outbound.{
  Writer, Phase, Action, run_schedule, new, drain, drain_task, enqueue_frame, close_writer,
  frame_bytes, max_queued_bytes, max_queued_frames,
}
use meepo.Host.Outbound.Fifo.{taken_frames, accepted, run_schedule-taken}
use meepo.Host.Handshake.Selection.{Common, selected_greatest}
use meepo.Host.Handshake.{negotiate_protocol}
use meepo.Host.Outbound.Bounds.{total_size, run_schedule-Bounded}
use meepo.Host.Outbound.Wakeup.{Quiet, accepted_unwritten, run_schedule-Quiet}

selected_greatest_example : Common 2 5 3 7 5 × ((w : ℕ) → Common 2 5 3 7 w → w ≤ 5)
unfolding negotiate_protocol
selected_greatest_example = selected_greatest 2 5 3 7 5 refl

-- every frame is a number whose serialization has four bytes
abbrev four_bytes : ℕ → Option ℕ
four_bytes f = some 4

abbrev sample_schedule : List (Action ℕ)
sample_schedule =
    enqueue_frame 1 ∷ enqueue_frame 2 ∷ drain_task true ∷ drain_task true ∷ enqueue_frame 3 ∷ []

abbrev sample_writer : Writer ℕ
sample_writer = record {
  items = record { frame = 2; size = 5 } ∷ record { frame = 3; size = 5 } ∷ [];
  queued_bytes = 10;
  closed = false;
  phase = Phase.popping;
  permit = true;
  written = 1 ∷ [];
}

ran : run_schedule four_bytes sample_schedule new ≡ some sample_writer
unfolding run_schedule new
ran = refl

run_schedule-taken_example :
    taken_frames sample_writer ≡ taken_frames new ++ accepted four_bytes sample_schedule new
run_schedule-taken_example = run_schedule-taken four_bytes sample_schedule new sample_writer ran

run_schedule-Bounded_example :
    (length sample_writer.items ≤ max_queued_frames)
    × (sample_writer.queued_bytes ≤ max_queued_bytes)
    × (sample_writer.queued_bytes ≡ total_size sample_writer.items)
run_schedule-Bounded_example =
    run_schedule-Bounded four_bytes (λ f. (4, refl, omega arith)) sample_schedule sample_writer ran

abbrev idle_writer : Writer ℕ
idle_writer = record {
  items = [];
  queued_bytes = 0;
  closed = false;
  phase = Phase.waiting;
  permit = false;
  written = [];
}

waited : run_schedule four_bytes (drain_task true ∷ drain_task true ∷ []) new ≡ some idle_writer
unfolding run_schedule new
waited = refl

run_schedule-Quiet_example : Quiet idle_writer.phase idle_writer.items idle_writer.closed
run_schedule-Quiet_example =
    run_schedule-Quiet four_bytes (drain_task true ∷ drain_task true ∷ []) idle_writer true waited
      refl

accepted_unwritten_example :
    (w : Writer ℕ) × (run_schedule four_bytes
        (drain_task true ∷ enqueue_frame 7 ∷ close_writer ∷ drain_task true ∷ [])
        new
      ≡ some w)
    × (w.phase ≡ Phase.stopped none)
    × (map (λ it. it.frame) w.items ≡ 7 ∷ [])
    × (w.written ≡ [])
    × ((sink_ok : Bool) → drain sink_ok w.phase w ≡ none)
unfolding frame_bytes
accepted_unwritten_example = accepted_unwritten four_bytes 7 (omega arith)
