-- ===== src/BarrierLock.antt =====
-- vpp-plugin/src/vlib/main/sync.rs: the lock whose writers hold VPP's barrier.
--
-- `readers` counts the read guards of the main thread and `writer` tells whether a write guard
-- lives; worker threads touch neither. A guard of the model is the thread that it was made on.
pub mod System
pub mod Exclusion
mod Tests
use vpp_plugin_rs.Prelude.{ℕ, Bool, true, false, ◌&&◌, not, ◌==◌, if◌then◌else◌}
use vpp_plugin_rs.Outcome.{
  Outcome, ok, panicked, ◌>>=◌, ◌>>◌, assert, debug_assert, u32_mod, add_word, sub_word,
}

pub record BarrierRwLock {ℓ} (T : Type ℓ) : Type ℓ where
  pub readers : ℕ
  pub writer : Bool
  pub content : T

-- `BarrierRwLockReadGuard`, less its two pointers into the lock.
pub record ReadGuard : Type 0 where
  pub main_thread : Bool

module _ {ℓ} {T : Type ℓ} where
  unfoldable pub new : T → BarrierRwLock T
  new t = record { readers = 0; writer = false; content = t }

  unfoldable pub get_mut : BarrierRwLock T → (T → T) → BarrierRwLock T
  get_mut l f = record l { content = f l.content }

  unfoldable pub into_inner : BarrierRwLock T → T
  into_inner l = l.content

  -- `Deref` of either guard, and `DerefMut` of the write guard.
  unfoldable pub deref : BarrierRwLock T → T
  deref l = l.content

  unfoldable pub deref_mut : BarrierRwLock T → (T → T) → BarrierRwLock T
  deref_mut l f = record l { content = f l.content }

  unfoldable pub drop_write_guard : BarrierRwLock T → BarrierRwLock T
  drop_write_guard l = record l { writer = false }

module _ {ℓ} {T : Type ℓ} (checks : Bool) where
  unfoldable pub new_read_guard : BarrierRwLock T → Bool → Outcome (ReadGuard × BarrierRwLock T)
  new_read_guard l main_thread = do
    assert (not (main_thread && l.writer))
    readers' ← if main_thread then add_word checks u32_mod l.readers 1 else ok l.readers
    ok (record { main_thread = main_thread }, record l { readers = readers' })

  unfoldable pub read : BarrierRwLock T → ℕ → Outcome (ReadGuard × BarrierRwLock T)
  unfolding new_read_guard
  read l thread_index = new_read_guard l (thread_index == 0)

  unfoldable pub drop_read_guard : ReadGuard → BarrierRwLock T → Outcome (BarrierRwLock T)
  drop_read_guard g l = do
    readers' ← if g.main_thread then sub_word checks u32_mod l.readers 1 else ok l.readers
    ok (record l { readers = readers' })

  unfoldable pub new_write_guard : BarrierRwLock T → Outcome (BarrierRwLock T)
  new_write_guard l = do
    assert (l.readers == 0)
    assert (not l.writer)
    ok (record l { writer = true })

  unfoldable pub write : BarrierRwLock T → ℕ → Outcome (BarrierRwLock T)
  unfolding new_write_guard
  write l thread_index = do debug_assert checks (thread_index == 0); new_write_guard l
