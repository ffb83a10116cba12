-- ===== src/TaskTimers.antt =====
-- vpp-plugin/src/vlib/process_node/tw_timer.rs: the timers of asynchronous tasks over a timer wheel. The
-- wheel is that of vppinfra/tw_timer.rs with 3 levels of 2048 slots, whose numbers are parameters here; the
-- context of a timer in it is the handle of the task's timer, a key of the second slab.
pub mod Marks
pub mod Valid
pub mod Changes
pub mod Laws
pub mod Stopping
pub mod Next
mod Tests
use vpp_plugin_rs.Prelude.{
  ℕ, zero, suc, ◌+◌, ◌-◌, ◌*◌, ◌/◌, ◌%◌, ◌^◌, ◌<◌, ◌≤◌, ◌≡◌, ◌≢◌, refl, sym, ap, ◌∙◌, Bool, true,
  false, not, ◌&&◌, ◌||◌, Option, none, some, List, [], ◌∷◌, ◌++◌, map, length, take, drop,
  get_elem?, ◌⊎◌, inl, inr, ltb, leb, if◌then◌else◌, ◌==◌, arith,
}
use vpp_plugin_rs.Outcome.{
  Outcome, ok, panicked, fault, ◌>>=◌, ◌>>◌, u16_mod, u32_mod, usize_mod, sub_word,
}
use vpp_plugin_rs.TimerWheel.Wheel.{TimerWheel}
use vpp_plugin_rs.TimerWheel.Timers.{start_timer_absolute}
use vpp_plugin_rs.TimerWheel.Slab.{Slab}
use vpp_plugin_rs.TimerWheel.Entries.{TimerEntry, expect}
use vpp_plugin_rs.TimerWheel.Setup
use vpp_plugin_rs.TimerWheel.Timers
use vpp_plugin_rs.TimerWheel.Search

pub record TimerState : Type 0 where
  pub is_ready : Bool
  pub wheel_handle : Option ℕ

-- `S` is the slab of the wheel, `R` that of the states.
pub record TaskWheel (S R : Type 0) : Type 0 where
  pub entries : R
  pub previous_ticks : ℕ
  pub wheel : TimerWheel S

abbrev pub started : TimerState
started = record { is_ready = false; wheel_handle = none }

abbrev pub running : ℕ → TimerState
running wheel_handle = record { is_ready = false; wheel_handle = some wheel_handle }

abbrev pub expired : TimerState
expired = record { is_ready = true; wheel_handle = none }

-- `Poll<()>`
pub data Poll : Type 0 where
  ready : Poll
  pending : Poll

module _ {S R : Type 0} (slab : Slab (TimerEntry ℕ) S) (states : Slab TimerState R) (checks : Bool)
    (num_levels num_slots : ℕ) where
  unfoldable pub init : TaskWheel S R
  init = record {
    entries = states.new;
    previous_ticks = 0;
    wheel = Setup.init slab num_levels num_slots;
  }

  -- The two ways in which the wheel answers.
  abbrev pub settle :
      TaskWheel S R → ℕ × R → (ℕ × TimerWheel S) ⊎ (ℕ × TimerWheel S) → ℕ × TaskWheel S R
  settle w (handle, entries) (inl (wheel_handle, wheel)) = (
    handle,
    record w { entries = states.put entries handle (running wheel_handle); wheel = wheel },
  )
  settle w (handle, entries) (inr (context, wheel)) =
      (handle, record w { entries = states.put entries handle expired; wheel = wheel })

  unfoldable pub start_timer : TaskWheel S R → ℕ → Outcome (ℕ × TaskWheel S R)
  start_timer w expire_time = do
    let inserted = states.insert w.entries started
    answer ← start_timer_absolute slab checks num_levels num_slots w.wheel expire_time inserted.0
    ok (settle w inserted answer)

  abbrev pub stop_in_wheel : Option ℕ → TimerWheel S → Outcome (TimerWheel S)
  stop_in_wheel none wheel = ok wheel
  stop_in_wheel (some wheel_handle) wheel = do
    (context, wheel') ← Timers.stop_timer slab checks num_levels num_slots wheel wheel_handle
    ok wheel'

  -- `Slab::remove` panics at a key that is not there.
  unfoldable pub stop_timer : TaskWheel S R → ℕ → Outcome (TaskWheel S R)
  stop_timer w handle = do
    entry ← expect (states.get w.entries handle)
    wheel ← stop_in_wheel entry.wheel_handle w.wheel
    ok (record w { entries = states.remove w.entries handle; wheel = wheel })

  unfoldable pub state : TaskWheel S R → ℕ → Option TimerState
  state w handle = states.get w.entries handle

  abbrev pub mark_if : R → ℕ → Option TimerState → R
  mark_if entries handle none = entries
  mark_if entries handle (some entry) = states.put entries handle expired

  unfoldable pub mark_all : R → List ℕ → R
  mark_all entries [] = entries
  mark_all entries (handle ∷ handles) =
      mark_all (mark_if entries handle (states.get entries handle)) handles

  -- The subtraction stops at 0, as `saturating_sub` does.
  unfoldable pub expire_timers : ℕ → TaskWheel S R → ℕ → Outcome (TaskWheel S R)
  expire_timers fuel w now = do
    (handles, wheel) ←
        Timers.expire_timers slab checks num_levels num_slots fuel w.wheel (now - w.previous_ticks)
    ok (record { entries = mark_all w.entries handles; previous_ticks = now; wheel = wheel })

  abbrev pub since : TaskWheel S R → Option ℕ → Outcome (Option ℕ)
  since w none = ok none
  since w (some ticks) = do left ← sub_word checks usize_mod ticks w.previous_ticks; ok (some left)

  unfoldable pub next_expiration : ℕ → TaskWheel S R → Outcome (Option ℕ)
  next_expiration fuel w = do
    ticks ← Search.next_expiration slab checks num_levels num_slots fuel w.wheel
    since w ticks

  unfoldable pub is_ready : TaskWheel S R → ℕ → Outcome Bool
  is_ready w handle = do found ← expect (state w handle); ok found.is_ready

  unfoldable pub poll : TaskWheel S R → ℕ → Outcome Poll
  poll w handle = do b ← is_ready w handle; ok (if b then ready else pending)
