-- ===== src/TimerWheel/Wheel.antt =====
-- The levels of a wheel, and the choice of a slot in `start_timer_unchecked`.
use vpp_plugin_rs.Prelude.{
  ℕ, zero, suc, ◌+◌, ◌-◌, ◌/◌, ◌%◌, ◌^◌, Bool, List, get_elem?, ltb, if◌then◌else◌, ◌==◌,
}
use vpp_plugin_rs.Outcome.{Outcome, ok, panicked, ◌>>=◌, usize_mod, add_word, sub_word}
use vpp_plugin_rs.TimerWheel.Entries.{expect}

pub record EntryList : Type 0 where
  pub head : ℕ

pub record Level : Type 0 where
  pub slots : List EntryList
  pub position : ℕ

pub record TimerWheel (S : Type 0) : Type 0 where
  pub timers : S
  pub levels : List Level
  pub current_time : ℕ

-- Division and remainder panic at zero, `pow` like the other arithmetic where it overflows.
abbrev pub div_word : ℕ → ℕ → Outcome ℕ
div_word a b = if b == 0 then panicked else ok (a / b)

abbrev pub rem_word : ℕ → ℕ → Outcome ℕ
rem_word a b = if b == 0 then panicked else ok (a % b)

abbrev pub pow_word : Bool → ℕ → ℕ → Outcome ℕ
pow_word checks a n =
    if ltb (a ^ n) usize_mod
    then ok (a ^ n)
    else if checks
    then panicked
    else ok (a ^ n % usize_mod)

unfoldable pub head_of : List Level → ℕ × ℕ → Outcome ℕ
head_of levels (level, slot) = do
  lv ← expect (get_elem? levels level)
  list ← expect (get_elem? lv.slots slot)
  ok list.head

module _ (checks : Bool) (num_levels num_slots : ℕ) where
  unfoldable pub last_slot : List Level → Outcome (ℕ × ℕ)
  last_slot levels = do
    level ← sub_word checks usize_mod num_levels 1
    lv ← expect (get_elem? levels level)
    a ← add_word checks usize_mod lv.position num_slots
    b ← sub_word checks usize_mod a 1
    slot ← rem_word b num_slots
    ok (level, slot)

  unfoldable pub slot_at : Level → ℕ → ℕ → Outcome ℕ
  slot_at lv l delta = do
    p ← pow_word checks num_slots l
    q ← div_word delta p
    a ← add_word checks usize_mod lv.position q
    rem_word (a - 1) num_slots

  -- `count` levels are left, from `l` on.
  unfoldable pub find_level : List Level → ℕ → ℕ → ℕ → ℕ × ℕ → Outcome (ℕ × ℕ)
  find_level levels delta zero l last = ok last
  find_level levels delta (suc count) l last = do
    p ← pow_word checks num_slots (l + 1)
    let rest = find_level levels delta count (l + 1) last
    if ltb delta p
        then (do lv ← expect (get_elem? levels l); slot ← slot_at lv l delta; ok (l, slot))
        else rest

  unfoldable pub place : List Level → ℕ → Outcome (ℕ × ℕ)
  place levels delta = do last ← last_slot levels; find_level levels delta num_levels 0 last
