-- ===== src/Channel/Tests.antt =====
-- A channel of numbers whose waker is stored as an option.
use vpp_plugin_rs.Channel.{
  poll_recv, try_recv, clone_sender, send, AtomicWaker, IsAtomicWaker, Channel, channel, push,
  register, wake, try_recv_inner, drop_sender,
}
use vpp_plugin_rs.Channel.Order.{call, Call, sends, clones, drops, tries, polls, calls, calls-queue}
use vpp_plugin_rs.Prelude.{
  ℕ, ◌≡◌, refl, true, false, Option, none, some, List, [], ◌∷◌, ◌++◌, arith,
}
use vpp_plugin_rs.Channel.Wakeups.{
  System, Reach, start, pushes, checks, registers, drops, here, next, running, waiting,
  start-resumes, start-strands, IsStranded,
}

abbrev option_waker : AtomicWaker ℕ (Option ℕ)
option_waker = record { new = none; register = λ w a. some w; take = λ a. (a, none) }

option_waker-IsAtomicWaker : IsAtomicWaker option_waker
option_waker-IsAtomicWaker = record {
  take_new = refl;
  take_register = λ w a. refl;
  take_take = λ a. refl;
}

abbrev opened : Channel ℕ (Option ℕ)
opened = record { queue = []; senders = 1; receiving = true; rx_waker = none }

abbrev waiting_system : ℕ → System ℕ (Option ℕ)
waiting_system n = record {
  chan = record { queue = []; senders = n; receiving = true; rx_waker = some 7 };
  sending = 0;
  stage = waiting;
  woken = false;
}

abbrev sending_system : System ℕ (Option ℕ)
sending_system = record (waiting_system 1) {
  chan = record { queue = 5 ∷ []; senders = 1; receiving = true; rx_waker = some 7 };
  sending = 1;
}

abbrev mixed : List (Call ℕ ℕ)
mixed = sends 4 ∷ polls 7 ∷ clones ∷ polls 7 ∷ sends 5 ∷ drops ∷ sends 6 ∷ tries ∷ []

mixed_test : (calls option_waker mixed opened).got ≡ 4 ∷ 5 ∷ []
unfolding calls call send wake push clone_sender drop_sender try_recv try_recv_inner poll_recv
    register
mixed_test = refl

calls-queue_example :
    (calls option_waker mixed opened).got ++ (calls option_waker mixed opened).chan.queue
    ≡ [] ++ (calls option_waker mixed opened).sent
calls-queue_example = calls-queue option_waker mixed opened

start-waiting : Reach option_waker (start option_waker) (waiting_system 1)
unfolding start channel try_recv_inner register
start-waiting = next (next here (checks opened refl refl)) (registers 7 refl)

start-sending : Reach option_waker (start option_waker) sending_system
unfolding push
start-sending = next start-waiting (pushes 5 sending_system.chan (omega arith) refl)

start-resumes_example :
    (t : System ℕ (Option ℕ)) × Reach option_waker sending_system t
    × (t.stage ≡ running)
    × (t.chan.queue ≡ 5 ∷ [])
start-resumes_example =
    start-resumes option_waker option_waker-IsAtomicWaker start-sending refl (omega arith)

start-strands_example :
    ((t : System ℕ (Option ℕ)) × Reach option_waker (start option_waker) t
      × IsStranded option_waker t
      × (t.chan.queue ≡ 5 ∷ []))
    × ((t : System ℕ (Option ℕ)) × Reach option_waker (start option_waker) t
        × IsStranded option_waker t
        × (t.chan.senders ≡ 0))
start-strands_example = start-strands option_waker option_waker-IsAtomicWaker 5 7
