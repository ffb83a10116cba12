-- ===== src/Counter/Combined.antt =====
-- The combined counters of vlib/counter.rs, which count packets and bytes.
pub mod CombinedSums
use vpp_plugin_rs.Counter.{usize_mod, set, add_word, read}
use vpp_plugin_rs.Prelude.{
  ℕ, zero, suc, ◌+◌, ◌-◌, ◌*◌, ◌/◌, ◌%◌, ◌^◌, ◌<◌, ◌≤◌, ◌≡◌, ◌≢◌, refl, sym, ap, ◌∙◌, Bool, true,
  false, not, ◌&&◌, ◌||◌, Option, none, some, List, [], ◌∷◌, ◌++◌, map, length, take, drop,
  get_elem?, ◌⊎◌, inl, inr, ltb, leb, if◌then◌else◌, ◌==◌, arith,
}
use vpp_plugin_rs.Outcome.{Outcome, ok, panicked, fault, ◌>>=◌, ◌>>◌, u16_mod, u32_mod}

-- `vlib_counter_t`, and `CombinedCount`, which has the same fields.
pub record CombinedCount : Type 0 where
  pub packets : ℕ
  pub bytes : ℕ

-- `vlib_combined_counter_main_t`: a row of counters for each thread.
pub record CombinedCounter : Type 0 where
  pub counters : List (List CombinedCount)

pub record VppCombinedCounters : Type 0 where
  pub validate : CombinedCounter → ℕ → CombinedCounter
  pub zero_counter : CombinedCounter → ℕ → CombinedCounter

unfoldable pub allocate_combined_index : VppCombinedCounters → CombinedCounter → ℕ → CombinedCounter
allocate_combined_index vpp c index = vpp.zero_counter (vpp.validate c index) index

unfoldable pub zero_combined : VppCombinedCounters → CombinedCounter → ℕ → CombinedCounter
zero_combined vpp c index = vpp.zero_counter c index

module _ (checks : Bool) where
  abbrev pub add_count : CombinedCount → ℕ → ℕ → Outcome CombinedCount
  add_count c packets bytes = do
    new_packets ← add_word checks usize_mod c.packets packets
    new_bytes ← add_word checks usize_mod c.bytes bytes
    ok (record { packets = new_packets; bytes = new_bytes })

  unfoldable pub increment_combined : CombinedCounter → ℕ → ℕ → ℕ → ℕ → Outcome CombinedCounter
  increment_combined c thread_index index packets bytes = do
    this_thread_counters ← read (get_elem? c.counters thread_index)
    counter ← read (get_elem? this_thread_counters index)
    counter' ← add_count counter packets bytes
    ok (record { counters = set c.counters thread_index (set this_thread_counters index counter') })

  unfoldable pub sum_combined :
      ℕ → List (List CombinedCount) → CombinedCount → Outcome CombinedCount
  sum_combined index [] sum = ok sum
  sum_combined index (counter_by_index ∷ rows) sum = do
    counter ← read (get_elem? counter_by_index index)
    sum' ← add_count sum counter.packets counter.bytes
    sum_combined index rows sum'

  unfoldable pub get_combined : CombinedCounter → ℕ → Outcome CombinedCount
  get_combined c index = sum_combined index c.counters (record { packets = 0; bytes = 0 })
