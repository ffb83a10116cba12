-- ===== src/Buffer/Vector.antt =====
-- `u64x8` of vlib/buffer.rs, and the loads and stores of several of them one after the other. Memory
-- behind a pointer is a list of cells, a pointer the index of one; an access outside is a fault.
use vpp_plugin_rs.Prelude.{
  ℕ, zero, suc, ◌+◌, ◌*◌, ◌-◌, ◌%◌, ◌^◌, Bool, Option, none, some, List, [], ◌∷◌, get_elem?, map,
}
use vpp_plugin_rs.Outcome.{Outcome, ok, fault, ◌>>=◌, usize_mod, add_word, sub_word}
use vpp_plugin_rs.VppVec.Collect.{write_each}

abbrev pub cell : Option ℕ → Outcome ℕ
cell none = fault
cell (some x) = ok x

unfoldable pub read_cells : List ℕ → ℕ → ℕ → Outcome (List ℕ)
read_cells mem i zero = ok []
read_cells mem i (suc n) = do x ← cell (get_elem? mem i); xs ← read_cells mem (i + 1) n; ok (x ∷ xs)

-- The eight lanes.
abbrev pub U64x8 : Type 0
U64x8 = List ℕ

unfoldable pub from_u32_ptr : List ℕ → ℕ → Outcome U64x8
from_u32_ptr mem ptr = read_cells mem ptr 8

-- `<<=` drops the bits that leave the word.
abbrev pub shift_lane : ℕ → ℕ → ℕ
shift_lane offset lane = lane * 2 ^ offset % usize_mod

unfoldable pub shift_elements_left : ℕ → U64x8 → U64x8
shift_elements_left offset = map (shift_lane offset)

unfoldable pub store : List (Option ℕ) → ℕ → U64x8 → Outcome (List (Option ℕ))
store slots ptr lanes = write_each slots ptr lanes

unfoldable pub load_vectors : List ℕ → ℕ → ℕ → Outcome (List U64x8)
load_vectors mem ptr zero = ok []
load_vectors mem ptr (suc k) = do
  v ← from_u32_ptr mem ptr
  vs ← load_vectors mem (ptr + 8) k
  ok (v ∷ vs)

unfoldable pub store_vectors : List (Option ℕ) → ℕ → List U64x8 → Outcome (List (Option ℕ))
store_vectors slots ptr [] = ok slots
store_vectors slots ptr (v ∷ vs) = do slots' ← store slots ptr v; store_vectors slots' (ptr + 8) vs

module _ (checks : Bool) where
  unfoldable pub add_u64 : ℕ → U64x8 → Outcome U64x8
  add_u64 value [] = ok []
  add_u64 value (x ∷ xs) = do
    y ← add_word checks usize_mod x value
    ys ← add_u64 value xs
    ok (y ∷ ys)

  unfoldable pub add_vectors : ℕ → List U64x8 → Outcome (List U64x8)
  add_vectors value [] = ok []
  add_vectors value (v ∷ vs) = do w ← add_u64 value v; ws ← add_vectors value vs; ok (w ∷ ws)

  -- The multiple of `2 ^ k`; clearing the low `k` bits takes the remainder off.
  unfoldable pub next_multiple_of_pow2 : ℕ → ℕ → Outcome ℕ
  next_multiple_of_pow2 val k = do
    sum ← add_word checks usize_mod val (2 ^ k)
    top ← sub_word checks usize_mod sum 1
    ok (top - top % 2 ^ k)
