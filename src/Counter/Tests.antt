-- ===== src/Counter/Tests.antt =====
-- Two threads with three counters each.
use vpp_plugin_rs.Prelude.{refl, ℕ, ◌+◌, ◌≡◌, ◌≢◌, true, [], ◌∷◌, get_elem?, arith}
use vpp_plugin_rs.Counter.{sum_counters, SimpleCounter, increment, get}
use vpp_plugin_rs.Counter.Combined.{CombinedCounter, increment_combined, get_combined}
use vpp_plugin_rs.Counter.Combined.CombinedSums.{
  packets_of, bytes_of, increment_combined-increment, get_combined-get,
}
use vpp_plugin_rs.Outcome.{ok}
use vpp_plugin_rs.Counter.Sums.{AllReach, total, count_of, increment-get}

abbrev two_threads : SimpleCounter
two_threads = record { counters = (1 ∷ 2 ∷ 3 ∷ []) ∷ (10 ∷ 20 ∷ 30 ∷ []) ∷ [] }

increment-get_example :
    (c' : SimpleCounter) × (sum : ℕ) × (increment true two_threads 1 2 5 ≡ ok c')
    × (get true two_threads 2 ≡ ok sum)
    × (get true c' 2 ≡ ok (sum + 5))
    × ((t : ℕ) → t ≢ 1 → get_elem? c'.counters t ≡ get_elem? two_threads.counters t)
unfolding AllReach total count_of
increment-get_example =
    increment-get true two_threads 1 2 2 5 (omega arith) (omega arith, (omega arith, tt))
      (omega arith, (omega arith, tt)) (omega arith) (omega arith)

abbrev two_combined : CombinedCounter
two_combined = record {
  counters =
      (record { packets = 1; bytes = 64 } ∷ record { packets = 2; bytes = 200 } ∷ [])
      ∷ (record { packets = 3; bytes = 180 } ∷ record { packets = 0; bytes = 0 } ∷ [])
      ∷ [];
}

increment_combined-increment_example :
    (c' : CombinedCounter) × (increment_combined true two_combined 1 0 2 120 ≡ ok c')
    × (packets_of c' ≡ record { counters = (1 ∷ 2 ∷ []) ∷ (5 ∷ 0 ∷ []) ∷ [] })
    × (bytes_of c' ≡ record { counters = (64 ∷ 200 ∷ []) ∷ (300 ∷ 0 ∷ []) ∷ [] })
unfolding increment
increment_combined-increment_example =
    increment_combined-increment true two_combined 1 0 2 120 _ _ refl refl

get_combined-get_example :
    get_combined true two_combined 0 ≡ ok (record { packets = 4; bytes = 244 })
unfolding get sum_counters
get_combined-get_example = get_combined-get true two_combined 0 4 244 refl refl
