-- ===== src/Buffer/Lookup.antt =====
-- `get_buffers` of vlib/buffer.rs: the pointers to the buffers of a list of indices.
use vpp_plugin_rs.Prelude.{
  ℕ, zero, suc, ◌+◌, ◌*◌, ◌-◌, ◌%◌, ◌^◌, ◌≡◌, ◌<◌, Bool, not, Option, some, List, [], ◌∷◌, leb, ltb,
  ◌==◌, if◌then◌else◌, length, set, take, map,
}
use vpp_plugin_rs.Outcome.{Outcome, ok, fault, ◌>>=◌, ◌>>◌, debug_assert, u32_mod}
use vpp_plugin_rs.Buffer.Vector.{
  load_vectors, store_vectors, add_vectors, shift_elements_left, next_multiple_of_pow2,
}

-- `ArrayVec` of the crate arrayvec: its length, and the memory behind `as_mut_ptr`.
pub record ArrayVec (V : Type 0) : Type 0 where
  pub len : V → ℕ
  pub slots : V → List (Option ℕ)
  pub write_slots : V → List (Option ℕ) → V
  pub push_unchecked : V → ℕ → V
  pub set_len : V → ℕ → V

-- Its documentation: memory written through the pointer is what is read from it, `set_len` changes
-- the length and nothing else, `push_unchecked` writes behind the elements where there is room.
pub record IsArrayVec {V : Type 0} (a : ArrayVec V) : Type 0 where
  pub written :
      (v : V) (s : List (Option ℕ))
      → length s ≡ length (a.slots v)
      → a.slots (a.write_slots v s) ≡ s
  pub len_set : (v : V) (n : ℕ) → a.len (a.set_len v n) ≡ n
  pub slots_set : (v : V) (n : ℕ) → a.slots (a.set_len v n) ≡ a.slots v
  pub len_push :
      (v : V) (x : ℕ) → a.len v < length (a.slots v) → a.len (a.push_unchecked v x) ≡ a.len v + 1
  pub slots_push :
      (v : V) (x : ℕ)
      → a.len v < length (a.slots v)
      → a.slots (a.push_unchecked v x) ≡ set (a.slots v) (a.len v) (some x)

abbrev pub clib_log2_cache_line_bytes : ℕ
clib_log2_cache_line_bytes = 6

-- The fields of `vlib_buffer_main_t` that are read.
pub record BufferMain : Type 0 where
  pub buffer_mem_start : ℕ
  pub buffer_mem_size : ℕ

-- The copy in progress: the target's memory, the two pointers, and how many are left.
pub record Copying : Type 0 where
  pub slots : List (Option ℕ)
  pub from_index : ℕ
  pub to_ptr : ℕ
  pub len : ℕ

-- `*from_index << CLIB_LOG2_CACHE_LINE_BYTES`, on u32
abbrev pub shift_u32 : ℕ → ℕ
shift_u32 x = x * 2 ^ clib_log2_cache_line_bytes % u32_mod

module _ (checks : Bool) (m : BufferMain) where
  -- The loop over the indices under `#[cfg(debug_assertions)]`.
  unfoldable pub assert_indices : List ℕ → Outcome (Unit {0})
  assert_indices [] = ok tt
  assert_indices (x ∷ xs) = do
    debug_assert checks (ltb (shift_u32 x) m.buffer_mem_size)
    assert_indices xs

  -- The body of a branch that copies `k` vectors of eight.
  unfoldable pub copy_vectors : List ℕ → ℕ → Copying → Outcome Copying
  copy_vectors mem k c = do
    from_x8 ← load_vectors mem c.from_index k
    let shifted_x8 = map (shift_elements_left clib_log2_cache_line_bytes) from_x8
    ptr_x8 ← add_vectors checks m.buffer_mem_start shifted_x8
    slots' ← store_vectors c.slots c.to_ptr ptr_x8
    ok (record {
      slots = slots';
      from_index = c.from_index + k * 8;
      to_ptr = c.to_ptr + k * 8;
      len = c.len - k * 8;
    })

  unfoldable pub copy_if : Bool → List ℕ → ℕ → Copying → Outcome Copying
  copy_if b mem k c = if b then copy_vectors mem k c else ok c

  -- `while len >= 64`, on fuel
  unfoldable pub copy_while : ℕ → List ℕ → Copying → Outcome Copying
  copy_while zero mem c = if leb 64 c.len then fault else ok c
  copy_while (suc fuel) mem c =
      if leb 64 c.len then (copy_vectors mem 8 c >>= λ c'. copy_while fuel mem c') else ok c

  -- The branches for 64, 32, 16 and at most 8 indices.
  unfoldable pub copy_all : List ℕ → Copying → Outcome Copying
  copy_all mem c = do
    c₁ ← copy_while c.len mem c
    c₂ ← copy_if (leb 32 c₁.len) mem 4 c₁
    c₃ ← copy_if (leb 16 c₂.len) mem 2 c₂
    copy_if (ltb 0 c₃.len) mem 1 c₃

  -- `base.add` wraps nothing: the pointer must stay in the memory of the buffers.
  unfoldable pub push_each : {V : Type 0} → ArrayVec V → List ℕ → V → V
  push_each a [] to = to
  push_each a (x ∷ xs) to = push_each a xs (a.push_unchecked to (m.buffer_mem_start + shift_u32 x))

  -- `assert_unchecked` is undefined behaviour where its condition is false. `mem` is the memory from `from_indices` on, of which the slice is the first `n` cells; `to` has
  -- room for `capacity` elements.
  unfoldable pub get_buffers : {V : Type 0} → ArrayVec V → ℕ → List ℕ → ℕ → V → Outcome V
  get_buffers a capacity mem n to = do
    debug_assert checks (leb n capacity)
    if leb n capacity then ok tt else fault
    assert_indices (take n mem)
    if not (capacity % 8 == 0) then ok (push_each a (take n mem) to) else do
      len ← next_multiple_of_pow2 checks n 3
      c ← copy_all mem (record { slots = a.slots to; from_index = 0; to_ptr = 0; len = len })
      ok (a.set_len (a.write_slots to c.slots) n)
