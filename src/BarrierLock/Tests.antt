-- ===== src/BarrierLock/Tests.antt =====
-- Runs of two guards on a lock of sync.rs, and each theorem at a state that they reach.
use vpp_plugin_rs.BarrierLock.Exclusion.{write_exclusive, write_granted}
use vpp_plugin_rs.Prelude.{◌⊎◌, ℕ, ◌+◌, ◌≡◌, refl, true, false, arith}
use vpp_plugin_rs.Outcome.{ok}
use vpp_plugin_rs.BarrierLock.{new, read, write}
use vpp_plugin_rs.BarrierLock.System.{
  System, Reach, start, take_barrier, main_write, main_read, here, next,
}

-- The main thread has taken the barrier and holds a write guard.
abbrev written : System ℕ
written = record {
  lock = record { readers = 0; writer = true; content = 5 };
  main_reads = 0;
  worker_reads = 0;
  writing = true;
  barrier = true;
}

written-Reach : Reach true (start 5) written
unfolding start new write
written-Reach =
    next (next here (take_barrier refl))
      (main_write (record { readers = 0; writer = true; content = 5 }) refl refl)

-- The main thread holds a read guard.
abbrev being_read : System ℕ
being_read = record {
  lock = record { readers = 1; writer = false; content = 5 };
  main_reads = 0 + 1;
  worker_reads = 0;
  writing = false;
  barrier = false;
}

being_read-Reach : Reach true (start 5) being_read
unfolding start new read
being_read-Reach = next here (main_read (record { main_thread = true }) _ (omega arith) refl)

write_exclusive_example :
    (written.main_reads ≡ 0) × ((written.barrier ≡ false) ⊎ (written.worker_reads ≡ 0))
write_exclusive_example = write_exclusive true 5 written-Reach refl

abbrev five : ℕ
five = 5

started-Reach : Reach true (start five) (start five)
started-Reach = here

write_granted_example :
    write true (start five).lock 0 ≡ ok (record (start five).lock { writer = true })
write_granted_example =
    write_granted true five started-Reach (unfold start in refl) (unfold start in refl)
