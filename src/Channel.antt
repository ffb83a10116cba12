-- ===== src/Channel.antt =====
-- vpp-plugin/src/vlib/process_node/mpsc.rs: the channel that sends data to an asynchronous task.
-- The queue inside is the standard library's, which keeps the order and tells when the other side
-- is gone. The `AtomicWaker` of the crate futures is a parameter.
pub mod Order
pub mod Wakeups
mod Tests
use vpp_plugin_rs.Prelude.{
  ℕ, ◌+◌, ◌-◌, ◌≡◌, Bool, true, false, Option, none, some, List, [], ◌∷◌, ◌++◌, ◌⊎◌, inl, inr,
  if◌then◌else◌, ◌==◌,
}

-- `register` stores a waker in place of an earlier one, and `take` is the part of `wake` that takes the
-- waker which is then woken.
pub record AtomicWaker (W A : Type 0) : Type 0 where
  pub new : A
  pub register : W → A → A
  pub take : A → Option W × A

pub record IsAtomicWaker {W A : Type 0} (aw : AtomicWaker W A) : Type 0 where
  pub take_new : (aw.take aw.new).0 ≡ none
  pub take_register : (w : W) (a : A) → (aw.take (aw.register w a)).0 ≡ some w
  pub take_take : (a : A) → (aw.take (aw.take a).1).0 ≡ none

-- `Sender` and `Receiver` share this: what was sent, how many senders live and whether the receiver does.
pub record Channel (T A : Type 0) : Type 0 where
  pub queue : List T
  pub senders : ℕ
  pub receiving : Bool
  pub rx_waker : A

-- `Result<T, TryRecvError>`
pub data TryRecv (T : Type 0) : Type 0 where
  received : T → TryRecv T
  empty : TryRecv T
  disconnected : TryRecv T

pub data Poll (R : Type 0) : Type 0 where
  ready : R → Poll R
  pending : Poll R

module _ {T W A : Type 0} (aw : AtomicWaker W A) where
  unfoldable pub channel : Channel T A
  channel = record { queue = []; senders = 1; receiving = true; rx_waker = aw.new }

  -- `inner.send`, which gives the value back where the receiver is gone.
  unfoldable pub push : Channel T A → T → T ⊎ Channel T A
  push c value = if c.receiving then inr (record c { queue = c.queue ++ value ∷ [] }) else inl value

  unfoldable pub wake : Channel T A → Option W × Channel T A
  wake c = let (waker, a) = aw.take c.rx_waker in (waker, record c { rx_waker = a })

  abbrev pub wake_sent : T ⊎ Channel T A → T ⊎ (Option W × Channel T A)
  wake_sent (inl value) = inl value
  wake_sent (inr c) = inr (wake c)

  -- With the waker that is woken.
  unfoldable pub send : Channel T A → T → T ⊎ (Option W × Channel T A)
  send c value = wake_sent (push c value)

  unfoldable pub clone_sender : Channel T A → Channel T A
  clone_sender c = record c { senders = c.senders + 1 }

  -- Nothing but the queue inside hears of it.
  unfoldable pub drop_sender : Channel T A → Channel T A
  drop_sender c = record c { senders = c.senders - 1 }

  -- The queue inside drops what nobody can receive any more.
  unfoldable pub drop_receiver : Channel T A → Channel T A
  drop_receiver c = record c { queue = []; receiving = false }

  abbrev pub try_recv_queue : List T → Channel T A → TryRecv T × Channel T A
  try_recv_queue [] c = ((if c.senders == 0 then disconnected else empty), c)
  try_recv_queue (value ∷ rest) c = (received value, record c { queue = rest })

  unfoldable pub try_recv_inner : Channel T A → TryRecv T × Channel T A
  try_recv_inner c = try_recv_queue c.queue c

  abbrev pub value_of : TryRecv T → Option T
  value_of (received value) = some value
  value_of empty = none
  value_of disconnected = none

  unfoldable pub try_recv : Channel T A → Option T × Channel T A
  try_recv c = let (r, c') = try_recv_inner c in (value_of r, c')

  unfoldable pub register : Channel T A → W → Channel T A
  register c w = record c { rx_waker = aw.register w c.rx_waker }

  abbrev pub poll_received : TryRecv T × Channel T A → W → Poll (Option T) × Channel T A
  poll_received (received value, c) w = (ready (some value), c)
  poll_received (disconnected, c) w = (ready none, c)
  poll_received (empty, c) w = (pending, register c w)

  unfoldable pub poll_recv : Channel T A → W → Poll (Option T) × Channel T A
  poll_recv c w = poll_received (try_recv_inner c) w
