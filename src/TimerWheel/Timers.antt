-- ===== src/TimerWheel/Timers.antt =====
-- Starting, stopping and expiring timers. The loops over a list of entries run on fuel and end in a
-- fault where it runs out; a level is given with the number of levels from it on.
use vpp_plugin_rs.Prelude.{
  ℕ, zero, suc, ◌+◌, ◌-◌, ◌%◌, Bool, true, false, Option, none, some, List, [], ◌∷◌, ◌++◌,
  get_elem?, set, ltb, leb, if◌then◌else◌, ◌==◌, ◌⊎◌, inl, inr,
}
use vpp_plugin_rs.Outcome.{
  Outcome, ok, panicked, fault, ◌>>=◌, u32_mod, usize_mod, add_word, sub_word,
}
use vpp_plugin_rs.TimerWheel.Slab.{Slab}
use vpp_plugin_rs.TimerWheel.Entries.{
  empty_index, TimerEntryData, head, timer, TimerEntry, expect, entry, set_next, link, unlink,
}
use vpp_plugin_rs.TimerWheel.Wheel.{TimerWheel, rem_word, place, head_of}

module _ {T S : Type 0} (slab : Slab (TimerEntry T) S) (checks : Bool)
    (num_levels num_slots : ℕ) where
  abbrev pub remaining : TimerWheel S → TimerEntryData T → Outcome ℕ
  remaining w head = panicked
  remaining w (timer expire_time context) = sub_word checks usize_mod expire_time w.current_time

  unfoldable pub start_timer_unchecked : TimerWheel S → ℕ → Outcome (TimerWheel S)
  start_timer_unchecked w index = do
    e ← entry slab w.timers index
    delta ← remaining w e.entry_data
    at ← place checks num_levels num_slots w.levels delta
    h ← head_of w.levels at
    timers ← link slab w.timers h index
    ok (record w { timers = timers })

  -- The entry is inserted first; its handle is its key as a u32.
  abbrev pub insert_timer : TimerWheel S → ℕ → T → ℕ × S
  insert_timer w expire_time context = slab.insert w.timers (record {
    next = empty_index;
    previous = empty_index;
    entry_data = timer expire_time context;
  })

  abbrev pub start_inserted : TimerWheel S → ℕ × S → Outcome (ℕ × TimerWheel S)
  start_inserted w (key, timers) = do
    w ← start_timer_unchecked (record w { timers = timers }) (key % u32_mod)
    ok (key % u32_mod, w)

  abbrev pub saturating_add : ℕ → ℕ → ℕ
  saturating_add a b = if ltb (a + b) usize_mod then a + b else usize_mod - 1

  unfoldable pub start_timer : TimerWheel S → ℕ → T → Outcome (ℕ × TimerWheel S)
  start_timer w interval context =
      start_inserted w (insert_timer w (saturating_add w.current_time interval) context)

  -- The context comes back where its time has passed.
  unfoldable pub start_timer_absolute :
      TimerWheel S → ℕ → T → Outcome ((ℕ × TimerWheel S) ⊎ (T × TimerWheel S))
  start_timer_absolute w expire_time context =
      if leb expire_time w.current_time
      then ok (inr (context, w))
      else (do started ← start_inserted w (insert_timer w expire_time context); ok (inl started))

  abbrev pub context_of : TimerEntryData T → Outcome T
  context_of head = panicked
  context_of (timer expire_time context) = ok context

  -- Taking an entry out gives its context.
  abbrev pub remove_timer : S → ℕ → Outcome (T × S)
  remove_timer s index = do
    e ← entry slab s index
    context ← context_of e.entry_data
    ok (context, slab.remove s index)

  abbrev pub is_head : TimerEntryData T → Bool
  is_head head = true
  is_head (timer expire_time context) = false

  abbrev pub stop_entry :
      TimerWheel S → ℕ → Option (TimerEntry T) → Outcome (Option T × TimerWheel S)
  stop_entry w handle none = ok (none, w)
  stop_entry w handle (some e) = if is_head e.entry_data then ok (none, w) else (do
    timers ← unlink slab w.timers e
    (context, timers) ← remove_timer timers handle
    ok (some context, record w { timers = timers }))

  unfoldable pub stop_timer : TimerWheel S → ℕ → Outcome (Option T × TimerWheel S)
  stop_timer w handle = stop_entry w handle (slab.get w.timers handle)

  -- One timer of the slot that is processed: it expires, or is started again further down.
  abbrev pub process_timer : TimerWheel S → ℕ → TimerEntryData T → Outcome (List T × TimerWheel S)
  process_timer w index head = panicked
  process_timer w index (timer expire_time context) =
      if leb expire_time w.current_time
      then (do
        (context, timers) ← remove_timer w.timers index
        ok (context ∷ [], record w { timers = timers }))
      else (do w ← start_timer_unchecked w index; ok ([], w))

  unfoldable pub process_list : ℕ → TimerWheel S → ℕ → Outcome (List T × TimerWheel S)
  process_list zero w index = if index == empty_index then ok ([], w) else fault
  process_list (suc fuel) w index = if index == empty_index then ok ([], w) else (do
    e ← entry slab w.timers index
    (expired, w) ← process_timer w index e.entry_data
    (more, w) ← process_list fuel w e.next
    ok (expired ++ more, w))

  abbrev pub advance_position : TimerWheel S → ℕ → Outcome (ℕ × TimerWheel S)
  advance_position w level = do
    lv ← expect (get_elem? w.levels level)
    position ← rem_word (lv.position + 1) num_slots
    ok (position, record w { levels = set w.levels level (record lv { position = position }) })

  -- Detach the list of the current slot.
  unfoldable pub detach : TimerWheel S → ℕ → Outcome (ℕ × TimerWheel S)
  detach w level = do
    lv ← expect (get_elem? w.levels level)
    h ← head_of w.levels (level, lv.position)
    first ← entry slab w.timers h
    timers ← set_next slab w.timers h empty_index
    ok (first.next, record w { timers = timers })

  unfoldable pub process_level : ℕ → ℕ → TimerWheel S → ℕ → Outcome (List T × TimerWheel S)
  process_level fuel zero w level = ok ([], w)
  process_level fuel (suc count) w level = do
    (index, w) ← detach w level
    (expired, w) ← process_list fuel w index
    (position, w) ← advance_position w level
    (cascaded, w) ← (if position == 0 then process_level fuel count w (level + 1) else ok ([], w))
    ok (expired ++ cascaded, w)

  unfoldable pub tick : ℕ → TimerWheel S → Outcome (List T × TimerWheel S)
  tick fuel w = do
    now ← add_word checks usize_mod w.current_time 1
    process_level fuel num_levels (record w { current_time = now }) 0

  unfoldable pub expire_timers : ℕ → TimerWheel S → ℕ → Outcome (List T × TimerWheel S)
  expire_timers fuel w zero = ok ([], w)
  expire_timers fuel w (suc ticks) = do
    (expired, w) ← tick fuel w
    (more, w) ← expire_timers fuel w ticks
    ok (expired ++ more, w)
