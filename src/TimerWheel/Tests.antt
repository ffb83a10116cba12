-- ===== src/TimerWheel/Tests.antt =====
-- A wheel of one level and two slots over it, and the theorems at it.
use vpp_plugin_rs.TimerWheel.Wheel.{
  Level, EntryList, head_of, slot_at, find_level, last_slot, place, TimerWheel,
}
use vpp_plugin_rs.TimerWheel.Links.{next_of, data_of}
use vpp_plugin_rs.Prelude.{
  get_elem?, none, ◌≢◌, ◌∙◌, ◌≤◌, sym, subst, ap, ℕ, ◌<◌, ◌≡◌, ◌⊎◌, inl, inr, refl, true, List, [],
  ◌∷◌, Option, some, arith,
}
use vpp_plugin_rs.TimerWheel.Earliest.{next_expiration_lem, IsEarliest}
use vpp_plugin_rs.TimerWheel.Search.{least_time, search_slots, search_levels, next_expiration}
use vpp_plugin_rs.TimerWheel.Setup.{insert_levels, init-IsWheel, insert_heads, head_entry, init}
use vpp_plugin_rs.TimerWheel.Entries.{
  set_previous, set_links, set_next, link, empty_index, timer, TimerEntry,
}
use vpp_plugin_rs.Outcome.{◌>>=◌, Outcome, ok, panicked, fault}
use vpp_plugin_rs.TimerWheel.Timers.{
  process_list, detach, process_level, start_timer_absolute, tick, start_timer_unchecked,
  stop_timer, expire_timers, start_timer,
}
use vpp_plugin_rs.TimerWheel.Handles.{
  start_timer_absolute_lem, stop_timer_lem, Stopped, start_timer_lem, Started,
}
use vpp_plugin_rs.TimerWheel.Ticking.{expire_timers_lem}
use vpp_plugin_rs.TimerWheel.Expiry.{Expires, IsWheel}
use vpp_plugin_rs.TimerWheel.Cells.{cell, cells, cells-IsSlab}

abbrev wheel : TimerWheel (List (Option (TimerEntry ℕ)))
wheel = record {
  timers = some (head_entry cells) ∷ some (head_entry cells) ∷ [];
  levels = record { slots = record { head = 0 } ∷ record { head = 1 } ∷ []; position = 0 } ∷ [];
  current_time = 0;
}

-- Two levels of two slots.
abbrev two_levels : TimerWheel (List (Option (TimerEntry ℕ)))
two_levels = record {
  timers =
      some (head_entry cells)
      ∷ some (head_entry cells)
      ∷ some (head_entry cells)
      ∷ some (head_entry cells)
      ∷ [];
  levels =
      record { slots = record { head = 0 } ∷ record { head = 1 } ∷ []; position = 0 }
      ∷ record { slots = record { head = 2 } ∷ record { head = 3 } ∷ []; position = 0 }
      ∷ [];
  current_time = 0;
}

wheel_from_init : init cells 1 2 ≡ wheel
unfolding init insert_levels insert_heads
wheel_from_init = refl

two_levels_from_init : init cells 2 2 ≡ two_levels
unfolding init insert_levels insert_heads
two_levels_from_init = refl

init-IsWheel_example :
    IsWheel {T = ℕ} cells 2 2 (init cells 2 2) empty_index
    × ((j time : ℕ) (c : ℕ) → data_of (cell (init cells 2 2).timers j) ≢ some (timer time c))
unfolding insert_heads
init-IsWheel_example =
    init-IsWheel cells cells-IsSlab 2 2 (omega arith) (omega arith) (omega arith) (omega arith)
      (omega arith) ((omega arith, (omega arith, tt)), ((omega arith, (omega arith, tt)), tt))

two_levels-IsWheel : IsWheel cells 2 2 two_levels empty_index
unfolding insert_heads
two_levels-IsWheel =
    subst (λ w. IsWheel cells 2 2 w empty_index) two_levels_from_init
      (init-IsWheel cells cells-IsSlab 2 2 (omega arith) (omega arith) (omega arith) (omega arith)
        (omega arith) ((omega arith, (omega arith, tt)), ((omega arith, (omega arith, tt)), tt))).0

wheel-IsWheel : IsWheel cells 1 2 wheel empty_index
unfolding insert_heads
wheel-IsWheel =
    subst (λ w. IsWheel cells 1 2 w empty_index) wheel_from_init
      (init-IsWheel cells cells-IsSlab 1 2 (omega arith) (omega arith) (omega arith) (omega arith)
        (omega arith) ((omega arith, (omega arith, tt)), tt)).0

-- The wheel with a timer of one tick in its first slot.
abbrev running : TimerWheel (List (Option (TimerEntry ℕ)))
running = record wheel {
  timers =
      some (record (head_entry cells) { next = 2 })
      ∷ some (head_entry cells)
      ∷ some (record { next = empty_index; previous = 0; entry_data = timer 1 77 })
      ∷ [];
}

started_running : start_timer cells true 1 2 wheel 1 77 ≡ ok (2, running)
unfolding start_timer start_timer_unchecked place last_slot find_level slot_at head_of link
    set_links set_next set_previous
started_running = refl

value_of :
    Outcome (ℕ × TimerWheel (List (Option (TimerEntry ℕ))))
    → TimerWheel (List (Option (TimerEntry ℕ)))
value_of (ok (handle, w)) = w
value_of panicked = wheel
value_of fault = wheel

running-IsWheel : IsWheel cells 1 2 running empty_index
unfolding value_of
running-IsWheel =
    let (w, runs, started) =
      start_timer_lem cells cells-IsSlab true 1 2 wheel 1 2 77 _ wheel-IsWheel (omega arith)
        (omega arith) refl in
    subst (λ x. IsWheel cells 1 2 x empty_index) (ap value_of (sym runs ∙ started_running))
      started.valid

expire_timers_lem_example :
    (enough : ℕ) × (expired : List ℕ) × (w' : TimerWheel (List (Option (TimerEntry ℕ))))
    × ((fuel : ℕ) → enough ≤ fuel → expire_timers cells true 1 2 fuel running 5 ≡ ok (expired, w'))
    × IsWheel cells 1 2 w' empty_index
    × (w'.current_time ≡ 5)
    × Expires 5 (cell running.timers) (cell w'.timers) expired
expire_timers_lem_example =
    expire_timers_lem cells cells-IsSlab true 1 2 running 5 running-IsWheel (omega arith)

stop_timer_lem_example :
    (w' : TimerWheel (List (Option (TimerEntry ℕ)))) × (stop_timer cells true 1 2 running 2
      ≡ ok (some 77, w'))
    × Stopped cells cells-IsSlab true 1 2 running 2 w'
stop_timer_lem_example =
    stop_timer_lem cells cells-IsSlab true 1 2 running 2 1 77 running-IsWheel refl

start_timer_absolute_lem_example :
    ((2 ≤ 0) × (start_timer_absolute cells true 1 2 wheel 2 77 ≡ ok (inr (77, wheel))))
    ⊎ ((0 < 2)
        × ((w' : TimerWheel (List (Option (TimerEntry ℕ)))) × (start_timer_absolute cells true 1 2
                wheel 2 77
              ≡ ok (inl (2, w')))
            × Started cells cells-IsSlab true 1 2 wheel 2 2 77 w'))
start_timer_absolute_lem_example =
    start_timer_absolute_lem cells cells-IsSlab true 1 2 wheel 2 2 77 _ wheel-IsWheel (omega arith)
      (omega arith) refl

-- The timer fires at its tick.
expired_at : ((expire_timers cells true 1 2 3 running 1 >>= λ r. ok r.0) ≡ ok (77 ∷ []))
unfolding expire_timers tick process_level detach head_of set_next process_list
expired_at = refl

next_expiration_lem_example :
    (enough : ℕ) × (r : Option ℕ) × ((fuel : ℕ)
      → enough ≤ fuel
      → next_expiration cells true 1 2 fuel running ≡ ok r)
    × IsEarliest cells true 1 2 running 0 r
    × (r ≡ none
        → (l : ℕ) (lv : Level) (i : ℕ) → l < 1
        → get_elem? running.levels l ≡ some lv
        → i < 2
        → (list : EntryList) × (get_elem? lv.slots i ≡ some list)
          × (next_of (cell running.timers list.head) ≡ some empty_index))
next_expiration_lem_example = next_expiration_lem cells true 1 2 running running-IsWheel

next_at : next_expiration cells true 1 2 3 running ≡ ok (some 1)
unfolding next_expiration search_levels search_slots least_time
next_at = refl

-- A timer of seven ticks, which is further than two levels of two slots reach.
-- It is moved down into the slot that is being processed, so it fires one tick late.
late_at :
    (start_timer cells true 2 2 two_levels 7 77 >>= λ r.
    expire_timers cells true 2 2 3 r.1 7 >>= λ r. ok r.0)
    ≡ ok []
unfolding start_timer start_timer_unchecked place last_slot find_level slot_at head_of link
    set_links set_next set_previous expire_timers tick process_level detach process_list
late_at = refl

late_then :
    (start_timer cells true 2 2 two_levels 7 77 >>= λ r.
    expire_timers cells true 2 2 3 r.1 8 >>= λ r. ok r.0)
    ≡ ok (77 ∷ [])
unfolding start_timer start_timer_unchecked place last_slot find_level slot_at head_of link
    set_links set_next set_previous expire_timers tick process_level detach process_list
late_then = refl

-- A timer of three ticks on a wheel of two levels of three slots, and at tick 2 one of two ticks.
abbrev one_above : Outcome (Option ℕ)
one_above = do
  (h, w) ← start_timer {T = ℕ} cells true 2 3 (init cells 2 3) 3 77
  (fired, w') ← expire_timers cells true 2 3 9 w 2
  (h', w'') ← start_timer cells true 2 3 w' 2 88
  next_expiration cells true 2 3 9 w''

one_above_test : one_above ≡ ok (some 4)
unfolding init insert_levels insert_heads start_timer start_timer_unchecked place last_slot
    find_level slot_at head_of link set_links set_next set_previous expire_timers tick process_level
    detach process_list next_expiration search_levels search_slots least_time
one_above_test = refl
