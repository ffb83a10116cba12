-- ===== src/Buffer/Tests.antt =====
-- An array of a fixed capacity, and the theorems on `get_buffers` at a pool of a thousand buffers.
use vpp_plugin_rs.Buffer.Advance.{advance-tail_mut, MayAdvance, IsPlaced}
use vpp_plugin_rs.Buffer.Metadata.{contains, tail_mut, current_ptr_mut, advance, BufferRef}
use vpp_plugin_rs.Prelude.Int.{◌+ℤ◌, negsuc, pos}
use vpp_plugin_rs.Outcome.{ok}
use vpp_plugin_rs.Prelude.Bounded.{AllBelow}
use vpp_plugin_rs.Buffer.VectorLaws.{address}
use vpp_plugin_rs.Buffer.Pointers.{get_buffers-aligned, get_buffers-unaligned}
use vpp_plugin_rs.Prelude.{
  take, ℕ, refl, List, Option, none, some, [], ◌∷◌, ◌≡◌, ◌+◌, set, true, replicate, arith,
}
use vpp_plugin_rs.Buffer.Lookup.{get_buffers, BufferMain, ArrayVec, IsArrayVec}

pub record FixedArray : Type 0 where
  pub count : ℕ
  pub cells : List (Option ℕ)

abbrev fixed : ArrayVec FixedArray
fixed = record {
  len = λ v. v.count;
  slots = λ v. v.cells;
  write_slots = λ v s. record v { cells = s };
  push_unchecked = λ v x. record { count = v.count + 1; cells = set v.cells v.count (some x) };
  set_len = λ v n. record v { count = n };
}

fixed-IsArrayVec : IsArrayVec fixed
fixed-IsArrayVec = record {
  written = λ v s h. refl;
  len_set = λ v n. refl;
  slots_set = λ v n. refl;
  len_push = λ v x h. refl;
  slots_push = λ v x h. refl;
}

abbrev pool : BufferMain
pool = record { buffer_mem_start = 4096; buffer_mem_size = 64000 }

-- Three indices, and five cells of stale memory behind them.
abbrev indices : List ℕ
indices = 7 ∷ 999 ∷ 0 ∷ 11 ∷ 12 ∷ 13 ∷ 14 ∷ 4294967295 ∷ []

abbrev empty_array : ℕ → FixedArray
empty_array n = record { count = 0; cells = replicate n none }

get_buffers-aligned_example :
    (to' : FixedArray) × (get_buffers true pool fixed 16 indices 3 (empty_array 16) ≡ ok to')
    × (to'.count ≡ 3)
    × (take 3 to'.cells ≡ some 4544 ∷ some 68032 ∷ some 4096 ∷ [])
unfolding address
get_buffers-aligned_example =
    get_buffers-aligned true pool fixed fixed-IsArrayVec 16 indices 3 (empty_array 16) refl refl
      (omega arith) (omega arith) (omega arith) (unfold AllBelow in ground arith)
      (unfold AllBelow in ground arith) (omega arith)

get_buffers-unaligned_example :
    (to' : FixedArray) × (get_buffers true pool fixed 5 indices 3 (empty_array 5) ≡ ok to')
    × (to'.count ≡ 3)
    × (take 3 to'.cells ≡ some 4544 ∷ some 68032 ∷ some 4096 ∷ [])
unfolding address
get_buffers-unaligned_example =
    get_buffers-unaligned true pool fixed fixed-IsArrayVec 5 indices 3 (empty_array 5) (omega arith)
      refl (omega arith) (omega arith) refl (omega arith) (unfold AllBelow in ground arith)

-- A buffer of 64 bytes that an earlier node has moved back by 14, with no next in its chain.
abbrev packet : BufferRef
packet = record {
  current_data = negsuc 13;
  current_length = 64;
  flags = 0;
  error = 0;
  total_length = 0;
}

packet-IsPlaced : IsPlaced 2048 packet
packet-IsPlaced = record { starts = omega arith; ends = omega arith; short = omega arith }

packet-MayAdvance : MayAdvance packet (pos 20)
unfolding contains
packet-MayAdvance = record {
  within = omega arith;
  headroom = omega arith;
  chained = λ e. ground arith;
}

advance-tail_mut_example :
    (b' : BufferRef) × (advance true packet (pos 20) ≡ ok b')
    × IsPlaced 2048 b'
    × (current_ptr_mut true b' ≡ ok (negsuc 13 +ℤ pos 20))
    × (tail_mut true b' ≡ tail_mut true packet)
    × (b'.flags ≡ 0)
advance-tail_mut_example =
    advance-tail_mut true 2048 packet (pos 20) packet-IsPlaced packet-MayAdvance
