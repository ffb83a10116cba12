-- ===== src/TimerWheel/Search.antt =====
-- `next_expiration`: the least time in the first list that is not empty. The loop over a list runs on
-- fuel.
use vpp_plugin_rs.Prelude.{
  ℕ, zero, suc, min, ◌+◌, Bool, List, Option, none, some, get_elem?, if◌then◌else◌, ◌==◌,
}
use vpp_plugin_rs.Outcome.{Outcome, ok, panicked, fault, ◌>>=◌, usize_mod, add_word}
use vpp_plugin_rs.TimerWheel.Slab.{Slab}
use vpp_plugin_rs.TimerWheel.Entries.{
  empty_index, TimerEntryData, head, timer, TimerEntry, expect, entry,
}
use vpp_plugin_rs.TimerWheel.Wheel.{Level, TimerWheel, rem_word}

abbrev pub min_time : Option ℕ → ℕ → Option ℕ
min_time none time = some time
min_time (some least) time = some (min least time)

-- What a search has found, or else what the rest of it finds.
abbrev pub or_else : Option (Option ℕ) → Outcome (Option ℕ) → Outcome (Option ℕ)
or_else none rest = rest
or_else (some found) rest = ok found

module _ {T S : Type 0} (slab : Slab (TimerEntry T) S) (checks : Bool)
    (num_levels num_slots : ℕ) where
  abbrev pub time_of : TimerEntryData T → Outcome ℕ
  time_of head = panicked
  time_of (timer expire_time context) = ok expire_time

  unfoldable pub least_time : ℕ → S → ℕ → Option ℕ → Outcome (Option ℕ)
  least_time zero timers index least = if index == empty_index then ok least else fault
  least_time (suc fuel) timers index least = if index == empty_index then ok least else (do
    e ← entry slab timers index
    time ← time_of e.entry_data
    least_time fuel timers e.next (min_time least time))

  unfoldable pub search_slots : ℕ → S → Level → ℕ → ℕ → Outcome (Option (Option ℕ))
  search_slots fuel timers lv zero i = ok none
  search_slots fuel timers lv (suc count) i = do
    a ← add_word checks usize_mod lv.position i
    slot ← rem_word a num_slots
    list ← expect (get_elem? lv.slots slot)
    first ← entry slab timers list.head
    let rest = search_slots fuel timers lv count (i + 1)
    if first.next == empty_index
        then rest
        else (do least ← least_time fuel timers first.next none; ok (some least))

  unfoldable pub search_levels : ℕ → S → List Level → ℕ → ℕ → Outcome (Option ℕ)
  search_levels fuel timers levels zero l = ok none
  search_levels fuel timers levels (suc count) l = do
    lv ← expect (get_elem? levels l)
    found ← search_slots fuel timers lv num_slots 0
    or_else found (search_levels fuel timers levels count (l + 1))

  unfoldable pub next_expiration : ℕ → TimerWheel S → Outcome (Option ℕ)
  next_expiration fuel w = search_levels fuel w.timers w.levels num_levels 0
