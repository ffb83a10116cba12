-- ===== src/Buffer/Metadata.antt =====
-- The header of a buffer in vlib/buffer.rs: where its data lies and how much there is. A pointer into
-- the buffer is its offset from `data`, which is negative in the room before the data.
use vpp_plugin_rs.Prelude.{
  ℕ, ◌-◌, ◌/◌, ◌%◌, ◌^◌, Bool, not, ◌&&◌, ◌||◌, Option, none, some, List, get_elem?, ltb, leb, ◌==◌,
  if◌then◌else◌,
}
use vpp_plugin_rs.Prelude.Int.{ℤ, pos, negsuc, ◌+ℤ◌, neg, leb_ℤ, bits_16, of_bits_16}
use vpp_plugin_rs.Outcome.{
  Outcome, ok, panicked, fault, ◌>>=◌, ◌>>◌, assert, debug_assert, u16_mod, usize_mod, add_word,
  sub_word,
}

-- `vlib_buffer_t`: `current_data` is an i16, `current_length` a u16, the rest are u32.
pub record BufferRef : Type 0 where
  pub current_data : ℤ
  pub current_length : ℕ
  pub flags : ℕ
  pub error : ℕ
  pub total_length : ℕ

abbrev pub pre_data_size : ℕ
pre_data_size = 128

abbrev pub min_chain_seg_size : ℕ
min_chain_seg_size = 128

abbrev pub next_present : ℕ
next_present = 2

abbrev pub total_length_valid : ℕ
total_length_valid = 4

-- Whether the bit `flag`, a power of two, is set.
unfoldable pub contains : ℕ → ℕ → Bool
contains flags flag = flags / flag % 2 == 1

-- i16 arithmetic: out of range, a panic where overflow is checked, else the wrapped integer.
abbrev pub in_i16 : ℤ → Bool
in_i16 x = leb_ℤ (negsuc (2 ^ 15 - 1)) x && leb_ℤ x (pos (2 ^ 15 - 1))

abbrev pub checked_i16 : Bool → ℤ → Outcome ℤ
checked_i16 checks x =
    if in_i16 x then ok x else if checks then panicked else ok (of_bits_16 (bits_16 x))

unfoldable pub flag_user : ℕ → Outcome ℕ
flag_user n = do assert (ltb n 29 && ltb 0 n); ok (2 ^ (32 - n))

unfoldable pub has_space : BufferRef → ℤ → Bool
has_space b l = leb (bits_16 l) b.current_length

unfoldable pub set_flags : BufferRef → ℕ → BufferRef
set_flags b flags = record b { flags = flags }

module _ (checks : Bool) where
  unfoldable pub current_ptr_mut : BufferRef → Outcome ℤ
  current_ptr_mut b = do
    debug_assert checks (leb_ℤ (neg (pos pre_data_size)) b.current_data)
    ok b.current_data

  unfoldable pub tail_mut : BufferRef → Outcome ℤ
  tail_mut b = do
    debug_assert checks (leb_ℤ (neg (pos pre_data_size)) b.current_data)
    ok (b.current_data +ℤ pos b.current_length)

  -- The second assertion, which adds and negates i16.
  abbrev pub assert_headroom : BufferRef → ℤ → Outcome (Unit {0})
  assert_headroom b l =
      if checks && not (leb_ℤ (pos 0) l)
      then (do
        start ← checked_i16 checks (b.current_data +ℤ pos pre_data_size)
        back ← checked_i16 checks (neg l)
        debug_assert checks (leb_ℤ back start))
      else ok tt

  abbrev pub advanced_length : BufferRef → ℤ → Outcome ℕ
  advanced_length b l =
      if leb_ℤ (pos 0) l then sub_word checks u16_mod b.current_length (bits_16 l) else (do
        back ← checked_i16 checks (neg l)
        add_word checks u16_mod b.current_length (bits_16 back))

  unfoldable pub advance : BufferRef → ℤ → Outcome BufferRef
  advance b l = do
    debug_assert checks (not (leb_ℤ (pos 0) l) || leb (bits_16 l) b.current_length)
    assert_headroom b l
    data' ← checked_i16 checks (b.current_data +ℤ l)
    length' ← advanced_length b l
    debug_assert checks (not (contains b.flags next_present) || leb min_chain_seg_size length')
    ok (record b { current_data = data'; current_length = length' })

  -- The tail before, where the new bytes go.
  unfoldable pub put_uninit : BufferRef → ℕ → Outcome (ℤ × BufferRef)
  put_uninit b size = do
    p ← tail_mut b
    length' ← add_word checks u16_mod b.current_length size
    ok (p, record b { current_length = length' })

  -- `errors` is the node's array, `error` the index that `into_u16` gives.
  unfoldable pub set_error : BufferRef → List ℕ → ℕ → Outcome BufferRef
  set_error b errors error = elim (get_elem? errors error) [
    | none ↦ fault
    | some value ↦ ok (record b { error = value })
  ]

  unfoldable pub total_length_not_including_first_buffer : BufferRef → Outcome ℕ
  total_length_not_including_first_buffer b = do
    debug_assert checks (contains b.flags total_length_valid)
    ok b.total_length

  -- `slow_path` is VPP's function that walks the chain.
  unfoldable pub length_in_chain : (BufferRef → ℕ) → BufferRef → Outcome ℕ
  length_in_chain slow_path b =
      if not (contains b.flags next_present)
      then ok b.current_length
      else if contains b.flags total_length_valid
      then (do
        rest ← total_length_not_including_first_buffer b
        add_word checks usize_mod b.current_length rest)
      else ok (slow_path b)

-- `alloc_buffer`: VPP's function returns how many it allocated, and the index.
unfoldable pub alloc_buffer : ℕ × ℕ → Option ℕ
alloc_buffer (res, buffer) = if res == 1 then some buffer else none
