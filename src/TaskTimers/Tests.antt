-- ===== src/TaskTimers/Tests.antt =====
-- Timers over a wheel of one level and two slots.
use vpp_plugin_rs.TimerWheel.Earliest.{IsEarliest}
use vpp_plugin_rs.TimerWheel.Search.{least_time, search_slots, search_levels}
use vpp_plugin_rs.TimerWheel.Timers.{
  process_list, detach, process_level, tick, start_timer_unchecked, start_timer_absolute,
}
use vpp_plugin_rs.TaskTimers.{
  mark_all, TimerState, TaskWheel, running, init, start_timer, stop_timer, expire_timers,
  next_expiration,
}
use vpp_plugin_rs.TimerWheel.Cells.{cell, cells, cells-IsSlab}
use vpp_plugin_rs.TimerWheel.Wheel.{head_of, slot_at, find_level, last_slot, place}
use vpp_plugin_rs.Prelude.{
  subst, ℕ, ◌≤◌, ◌≡◌, refl, sym, ap, ◌∙◌, true, Option, none, some, List, [], ◌∷◌, ◌⊎◌,
  if◌then◌else◌, ◌==◌, arith,
}
use vpp_plugin_rs.TimerWheel.Entries.{
  head, TimerEntry, timer, empty_index, link, set_links, set_next, set_previous,
}
use vpp_plugin_rs.Outcome.{Outcome, ok, panicked, fault, ◌>>=◌}
use vpp_plugin_rs.TimerWheel.Setup.{insert_levels, insert_heads, init-IsWheel}
use vpp_plugin_rs.TaskTimers.Next.{IsNext, next_expiration-IsTimers}
use vpp_plugin_rs.TaskTimers.Valid.{IsTimers, BecomesReady}
use vpp_plugin_rs.TaskTimers.Laws.{start_timer-IsTimers, expire_timers-IsTimers, init-IsTimers}
use vpp_plugin_rs.TaskTimers.Stopping.{stop_timer-IsTimers}
use vpp_plugin_rs.TimerWheel.Timers
use vpp_plugin_rs.TimerWheel.Search
use vpp_plugin_rs.TimerWheel.Setup

abbrev CellTimers : Type 0
CellTimers = TaskWheel (List (Option (TimerEntry ℕ))) (List (Option TimerState))

abbrev no_timers : CellTimers
no_timers = record {
  entries = [];
  previous_ticks = 0;
  wheel = record {
    timers =
        some (record { next = empty_index; previous = empty_index; entry_data = head })
        ∷ some (record { next = empty_index; previous = empty_index; entry_data = head })
        ∷ [];
    levels = record { slots = record { head = 0 } ∷ record { head = 1 } ∷ []; position = 0 } ∷ [];
    current_time = 0;
  };
}

init_test : init cells cells true 1 2 ≡ no_timers
unfolding init Setup.init insert_levels insert_heads
init_test = refl

no_timers-IsTimers : IsTimers cells cells 1 2 no_timers
unfolding insert_heads
no_timers-IsTimers =
    let (valid, unused) =
      init-IsWheel cells cells-IsSlab 1 2 (omega arith) (omega arith) (omega arith) (omega arith)
        (omega arith) ((omega arith, (omega arith, tt)), tt) in
    subst (λ w. IsTimers cells cells 1 2 w) init_test
      (init-IsTimers cells cells-IsSlab cells cells-IsSlab true 1 2 valid unused)

-- One timer, of one tick.
abbrev one_timer : CellTimers
one_timer = record no_timers {
  entries = some (running 2) ∷ [];
  wheel = record no_timers.wheel {
    timers =
        some (record { next = 2; previous = empty_index; entry_data = head })
        ∷ some (record { next = empty_index; previous = empty_index; entry_data = head })
        ∷ some (record { next = empty_index; previous = 0; entry_data = timer 1 0 })
        ∷ [];
  };
}

start_test : start_timer cells cells true 1 2 no_timers 1 ≡ ok (0, one_timer)
unfolding start_timer start_timer_absolute start_timer_unchecked place last_slot find_level slot_at
    head_of link set_links set_next set_previous
start_test = refl

timers_of : Outcome (ℕ × CellTimers) → CellTimers
timers_of (ok (handle, w)) = w
timers_of panicked = no_timers
timers_of fault = no_timers

one_timer-IsTimers : IsTimers cells cells 1 2 one_timer
unfolding timers_of
one_timer-IsTimers =
    let (w, runs, valid, same, rest) =
      start_timer-IsTimers cells cells-IsSlab cells cells-IsSlab true 1 2 no_timers 1 0 2 _ _
        no_timers-IsTimers (omega arith) (omega arith) refl refl in
    subst (λ w. IsTimers cells cells 1 2 w) (ap timers_of (sym runs ∙ start_test)) valid

start_timer-IsTimers_example :
    (w' : CellTimers) × (start_timer cells cells true 1 2 no_timers 1 ≡ ok (0, w'))
    × IsTimers cells cells 1 2 w'
    × (w'.previous_ticks ≡ 0)
    × ((j : ℕ) → cell w'.entries j ≡ (if 0 == j then some (running 2) else none))
start_timer-IsTimers_example =
    start_timer-IsTimers cells cells-IsSlab cells cells-IsSlab true 1 2 no_timers 1 0 2 _ _
      no_timers-IsTimers (omega arith) (omega arith) refl refl

stop_timer-IsTimers_example :
    (w' : CellTimers) × (stop_timer cells cells true 1 2 one_timer 0 ≡ ok w')
    × IsTimers cells cells 1 2 w'
    × (w'.previous_ticks ≡ 0)
    × ((j : ℕ) → cell w'.entries j ≡ (if 0 == j then none else cell one_timer.entries j))
stop_timer-IsTimers_example =
    stop_timer-IsTimers cells cells-IsSlab cells cells-IsSlab true 1 2 one_timer 0 (running 2)
      one_timer-IsTimers refl

expire_timers-IsTimers_example :
    (enough : ℕ) × (w' : CellTimers) × ((fuel : ℕ)
      → enough ≤ fuel
      → expire_timers cells cells true 1 2 fuel one_timer 4 ≡ ok w')
    × IsTimers cells cells 1 2 w'
    × (w'.previous_ticks ≡ 4)
    × ((h : ℕ)
        → (cell w'.entries h ≡ cell one_timer.entries h)
          ⊎ BecomesReady 4
              (cell one_timer.wheel.timers)
              (cell one_timer.entries h)
              (cell w'.entries h)
              h)
expire_timers-IsTimers_example =
    expire_timers-IsTimers cells cells-IsSlab cells cells-IsSlab true 1 2 one_timer 4
      one_timer-IsTimers (omega arith) (omega arith)

abbrev late : ℕ → ℕ → ℕ → ℕ → Outcome (Option ℕ)
late num_levels num_slots time now = do
  (h, w) ←
      start_timer cells cells true num_levels num_slots (init cells cells true num_levels num_slots)
        time
  w' ← expire_timers cells cells true num_levels num_slots 20 w now
  next_expiration cells cells true num_levels num_slots 20 w'

-- A timer that fires late has a time before the last call of expire_timers.
late_panics : late 2 3 12 13 ≡ panicked
unfolding init Setup.init insert_levels insert_heads start_timer start_timer_absolute
    start_timer_unchecked place last_slot find_level slot_at head_of link set_links set_next
    set_previous expire_timers mark_all Timers.expire_timers tick process_level detach process_list
    next_expiration Search.next_expiration search_levels search_slots least_time
late_panics = refl

next_expiration-IsTimers_example :
    (enough : ℕ) × (r : Option ℕ) × (out : Outcome (Option ℕ)) × ((fuel : ℕ)
      → enough ≤ fuel
      → next_expiration cells cells true 1 2 fuel one_timer ≡ out)
    × IsEarliest cells true 1 2 one_timer.wheel 0 r
    × IsNext cells cells cells-IsSlab true 1 2 one_timer r out
next_expiration-IsTimers_example =
    next_expiration-IsTimers cells cells cells-IsSlab true 1 2 one_timer one_timer-IsTimers
