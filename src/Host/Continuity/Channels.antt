-- ===== src/Host/Continuity/Channels.antt =====
-- The `tokio::sync::mpsc` channel that crates/meepo-host/src/continuity sends its frames through: the
-- operations that the coordinator uses, what its documentation promises of them, and a bounded queue
-- that keeps the promise.
use meepo.Prelude.{ℕ, ◌≡◌, Option, none, some, List, [], ◌∷◌, ◌++◌, length, leb, if◌then◌else◌}

pub record Channel (F : Type 0) : Type 1 where
  pub State : Type 0
  -- `mpsc::channel(capacity)`
  pub channel : ℕ → State
  -- `Sender::try_send`, `none` if the queue is full or the receiver is gone
  pub try_send : F → State → Option State
  -- what the receiving side does to the channel, at any time
  pub Move : Type 0
  pub receive : Move → State → State

-- `sent` is every frame that the channel has taken, in order: a send that succeeds adds its frame, and
-- the receiver takes nothing back.
pub record ChannelLaws {F : Type 0} (c : Channel F) : Type 0 where
  pub sent : c.State → List F
  pub sent-channel : (n : ℕ) → sent (c.channel n) ≡ []
  pub sent-try_send :
      (f : F) (s s' : c.State) → c.try_send f s ≡ some s' → sent s' ≡ sent s ++ f ∷ []
  pub sent-receive : (m : c.Move) (s : c.State) → sent (c.receive m s) ≡ sent s

pub record BoundedQueue (F : Type 0) : Type 0 where
  pub capacity : ℕ
  pub received : List F
  pub queued : List F

module _ {F : Type 0} where
  abbrev pub push : F → BoundedQueue F → Option (BoundedQueue F)
  push f q =
      if leb q.capacity (length q.queued)
      then none
      else some (record q { queued = q.queued ++ f ∷ [] })

  abbrev pub pop : List F → BoundedQueue F → BoundedQueue F
  pop [] q = q
  pop (f ∷ fs) q = record q { received = q.received ++ f ∷ []; queued = fs }

abbrev pub bounded_queue : (F : Type 0) → Channel F
bounded_queue F = record {
  State = BoundedQueue F;
  channel = λ n. record { capacity = n; received = []; queued = [] };
  try_send = push;
  Move = Unit {0};
  receive = λ m q. pop q.queued q;
}
