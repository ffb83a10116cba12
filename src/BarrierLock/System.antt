-- ===== src/BarrierLock/System.antt =====
-- The threads of a VPP process around one lock of sync.rs: the main thread, which may hold the
-- barrier, and its workers. What VPP's barrier gives is in the premises of two steps: it is taken
-- when no worker is inside a read, and workers start none while it is held. A write asks for the
-- barrier, which its argument of type `BarrierHeldMainRef` proves; the barrier may be let go at any
-- time, since the guard that `write` gives does not borrow that proof.
use vpp_plugin_rs.Prelude.{ℕ, ◌+◌, ◌-◌, ◌<◌, ◌≡◌, Bool, true, false}
use vpp_plugin_rs.Outcome.{ok, u32_mod}
use vpp_plugin_rs.BarrierLock.{
  BarrierRwLock, ReadGuard, new, read, drop_read_guard, write, drop_write_guard, deref_mut,
}

-- The lock, and the guards that live: read guards on the main thread and on workers, a write guard.
pub record System {ℓ} (T : Type ℓ) : Type ℓ where
  pub lock : BarrierRwLock T
  pub main_reads : ℕ
  pub worker_reads : ℕ
  pub writing : Bool
  pub barrier : Bool

unfoldable pub start {ℓ} : {T : Type ℓ} → T → System T
start t = record {
  lock = new t;
  main_reads = 0;
  worker_reads = 0;
  writing = false;
  barrier = false;
}

module _ {ℓ} {T : Type ℓ} (checks : Bool) where
  pub data Step (s : System T) : System T → Type ℓ where
    main_read :
        (g : ReadGuard) (l : BarrierRwLock T)
        → s.main_reads + 1 < u32_mod
        → read checks s.lock 0 ≡ ok (g, l)
        → Step s (record s { lock = l; main_reads = s.main_reads + 1 })
    main_drop :
        (l : BarrierRwLock T)
        → 0 < s.main_reads
        → drop_read_guard checks (record { main_thread = true }) s.lock ≡ ok l
        → Step s (record s { lock = l; main_reads = s.main_reads - 1 })
    worker_read :
        (thread_index : ℕ) (g : ReadGuard) (l : BarrierRwLock T)
        → 0 < thread_index
        → s.barrier ≡ false
        → read checks s.lock thread_index ≡ ok (g, l)
        → Step s (record s { lock = l; worker_reads = s.worker_reads + 1 })
    worker_drop :
        (l : BarrierRwLock T)
        → 0 < s.worker_reads
        → drop_read_guard checks (record { main_thread = false }) s.lock ≡ ok l
        → Step s (record s { lock = l; worker_reads = s.worker_reads - 1 })
    take_barrier : s.worker_reads ≡ 0 → Step s (record s { barrier = true })
    release_barrier : Step s (record s { barrier = false })
    main_write :
        (l : BarrierRwLock T)
        → s.barrier ≡ true
        → write checks s.lock 0 ≡ ok l
        → Step s (record s { lock = l; writing = true })
    change : (f : T → T) → s.writing ≡ true → Step s (record s { lock = deref_mut s.lock f })
    write_drop :
        s.writing ≡ true → Step s (record s { lock = drop_write_guard s.lock; writing = false })

  pub data Reach (s : System T) : System T → Type ℓ where
    here : Reach s s
    next : {t u : System T} → Reach s t → Step t u → Reach s u
