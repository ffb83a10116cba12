-- ===== src/Counter.antt =====
-- vpp-plugin/src/vlib/counter.rs: simple counters, which every thread counts on its own. `Combined` has
-- the combined ones.
pub mod Sums
pub mod Combined
mod Tests
use vpp_plugin_rs.Prelude.{
  ℕ, zero, suc, ◌+◌, ◌^◌, Bool, List, [], ◌∷◌, Option, none, some, get_elem?, set,
}
use vpp_plugin_rs.Outcome.{Outcome, ok, fault, ◌>>=◌, usize_mod, add_word}

-- `vlib_simple_counter_main_t`: a row of counters for each thread.
pub record SimpleCounter : Type 0 where
  pub counters : List (List ℕ)

-- VPP's functions that lengthen the rows up to an index, and that zero the counters at one.
pub record VppCounters : Type 0 where
  pub validate : SimpleCounter → ℕ → SimpleCounter
  pub zero_counter : SimpleCounter → ℕ → SimpleCounter

-- A pointer past the end of a row or of the rows must not be read.
abbrev pub read {ℓ} : {A : Type ℓ} → Option A → Outcome A
read none = fault
read (some x) = ok x

unfoldable pub allocate_index : VppCounters → SimpleCounter → ℕ → SimpleCounter
allocate_index vpp c index = vpp.zero_counter (vpp.validate c index) index

unfoldable pub zero_index : VppCounters → SimpleCounter → ℕ → SimpleCounter
zero_index vpp c index = vpp.zero_counter c index

module _ (checks : Bool) where
  unfoldable pub increment : SimpleCounter → ℕ → ℕ → ℕ → Outcome SimpleCounter
  increment c thread_index index count = do
    this_thread_counters ← read (get_elem? c.counters thread_index)
    counter ← read (get_elem? this_thread_counters index)
    new_count ← add_word checks usize_mod counter count
    ok (record {
      counters = set c.counters thread_index (set this_thread_counters index new_count);
    })

  unfoldable pub sum_counters : ℕ → List (List ℕ) → ℕ → Outcome ℕ
  sum_counters index [] sum = ok sum
  sum_counters index (counter_by_index ∷ rows) sum = do
    counter ← read (get_elem? counter_by_index index)
    sum ← add_word checks usize_mod sum counter
    sum_counters index rows sum

  unfoldable pub get : SimpleCounter → ℕ → Outcome ℕ
  get c index = sum_counters index c.counters 0
