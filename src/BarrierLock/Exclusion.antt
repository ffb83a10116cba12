-- ===== src/BarrierLock/Exclusion.antt =====
-- Which guards of sync.rs can live at once, and which calls panic.
use vpp_plugin_rs.Prelude.{inr, inl, Bool-cases, ◌⊎◌, ◌<◌, ◌≡◌, refl, Bool, true, false, arith}
use vpp_plugin_rs.BarrierLock.{
  new, read, new_read_guard, drop_read_guard, write, new_write_guard, drop_write_guard, deref_mut,
}
use vpp_plugin_rs.Outcome.{ok, panicked, u32_mod}
use vpp_plugin_rs.BarrierLock.System.{
  System, Step, Reach, start, main_read, main_drop, worker_read, worker_drop, take_barrier,
  release_barrier, main_write, change, write_drop, here, next,
}

-- The fields of the lock tell which guards live on the main thread; a writer has no reader of the
-- main thread beside it, and no worker reads while the barrier is held.
pub record IsGuarded {ℓ} {T : Type ℓ} (s : System T) : Type 0 where
  pub counted : s.lock.readers ≡ s.main_reads
  pub fits : s.main_reads < u32_mod
  pub marked : s.lock.writer ≡ s.writing
  pub alone : s.writing ≡ true → s.main_reads ≡ 0
  pub paused : s.barrier ≡ true → s.worker_reads ≡ 0

module _ {ℓ} {T : Type ℓ} (checks : Bool) where
  Step-IsGuarded : {s t : System T} → Step checks s t → IsGuarded s → IsGuarded t
  unfolding read drop_read_guard write drop_write_guard deref_mut
  Step-IsGuarded (main_read g l small e) h = ground (arith, h.alone, h.paused)
  Step-IsGuarded (main_drop l some_read e) h = ground (arith, h.alone, h.paused)
  Step-IsGuarded (worker_read i g l worker running e) h = ground (arith, h.alone, h.paused)
  Step-IsGuarded (worker_drop l some_read e) h = ground (arith, h.alone, h.paused)
  Step-IsGuarded (take_barrier idle) h = ground (arith, h.alone, h.paused)
  Step-IsGuarded release_barrier h = ground (arith, h.alone, h.paused)
  Step-IsGuarded (main_write l held e) h = ground (arith, h.alone, h.paused)
  Step-IsGuarded (change f writing) h = ground (arith, h.alone, h.paused)
  Step-IsGuarded (write_drop writing) h = ground (arith, h.alone, h.paused)

  Reach-IsGuarded : {s t : System T} → IsGuarded s → Reach checks s t → IsGuarded t
  Reach-IsGuarded h here = h
  Reach-IsGuarded h (next r st) = Step-IsGuarded st (Reach-IsGuarded h r)

  start-IsGuarded : (x : T) → IsGuarded (start x)
  unfolding start new
  start-IsGuarded x = record {
    counted = refl;
    fits = omega arith;
    marked = refl;
    alone = λ e. refl;
    paused = λ e. refl;
  }

  -- In every reachable state of the main thread, its workers and one lock in which a write guard
  -- lives, no read guard of the main thread does, and none of a worker does while the barrier is
  -- held. This is under the conditions that fewer than 2^32 read guards of the main thread live at
  -- once, that VPP lets the barrier be taken only when no worker is inside a read and lets none
  -- start one while it is held, and that write is called with the barrier held, as the type of its
  -- argument asks.
  pub write_exclusive :
      (x : T) {s : System T}
      → Reach checks (start x) s
      → s.writing ≡ true
      → (s.main_reads ≡ 0) × ((s.barrier ≡ false) ⊎ (s.worker_reads ≡ 0))
  write_exclusive x {s} r w =
      let h = Reach-IsGuarded (start-IsGuarded x) r in
      elim (Bool-cases s.barrier) [
        | inl held ↦ (h.alone w, inr (h.paused held))
        | inr released ↦ (h.alone w, inl released)
      ]

  -- In every reachable state in which a write guard lives, a read and a second write on the main
  -- thread panic.
  pub write_blocks :
      (x : T) {s : System T}
      → Reach checks (start x) s
      → s.writing ≡ true
      → (read checks s.lock 0 ≡ panicked) × (write checks s.lock 0 ≡ panicked)
  unfolding read write new_write_guard new_read_guard
  write_blocks x r w = let h = Reach-IsGuarded (start-IsGuarded x) r in ground (arith, h.alone w)

  -- In every reachable state in which a read guard of the main thread lives, a write panics.
  pub read_blocks :
      (x : T) {s : System T}
      → Reach checks (start x) s
      → 0 < s.main_reads
      → write checks s.lock 0 ≡ panicked
  unfolding write new_write_guard
  read_blocks x r some_read = let h = Reach-IsGuarded (start-IsGuarded x) r in ground arith

  -- In every reachable state where neither a write guard nor a read guard of the main thread
  -- lives, a write on the main thread is granted.
  pub write_granted :
      (x : T) {s : System T}
      → Reach checks (start x) s
      → s.main_reads ≡ 0
      → s.writing ≡ false
      → write checks s.lock 0 ≡ ok (record s.lock { writer = true })
  unfolding write new_write_guard
  write_granted x r none quiet = let h = Reach-IsGuarded (start-IsGuarded x) r in ground arith
