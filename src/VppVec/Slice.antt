-- ===== src/VppVec/Slice.antt =====
-- The operations of `VecRef` in vec.rs.
use vpp_plugin_rs.Prelude.{
  ℕ, ◌+◌, ◌-◌, ◌%◌, Bool, Option, none, some, List, leb, ltb, ◌==◌, length, if◌then◌else◌,
}
use vpp_plugin_rs.Outcome.{
  Outcome, ok, fault, ◌>>=◌, ◌>>◌, assert, debug_assert, u8_mod, u32_mod, usize_mod, add_word,
  sub_word, clamp_u8,
}
use vpp_plugin_rs.VppVec.Raw.{VecRef, read, copy, read_all}

-- `checks` is how the crate is built; see `Outcome`.
module _ {ℓ} {T : Type ℓ} (checks : Bool) where
  unfoldable pub len : VecRef T → ℕ
  len v = v.len

  unfoldable pub is_empty : VecRef T → Bool
  unfolding len
  is_empty v = len v == 0

  unfoldable pub capacity : VecRef T → Outcome ℕ
  capacity v = add_word checks u32_mod v.len v.grow_elts

  unfoldable pub as_slice : VecRef T → Outcome (List T)
  unfolding len
  as_slice v = read_all v.slots (len v)

  -- The number of slots in the slice that is returned, which must lie in the allocation.
  unfoldable pub spare_capacity_mut : VecRef T → Outcome ℕ
  unfolding len capacity
  spare_capacity_mut v = do
    cap ← capacity v
    n ← sub_word checks usize_mod cap (len v)
    if leb (len v + n) (length v.slots) then ok n else fault

  unfoldable pub set_len : VecRef T → ℕ → Outcome (VecRef T)
  unfolding capacity
  set_len v new_len = do
    cap ← capacity v
    debug_assert checks (leb new_len cap)
    new_grow_elts ← sub_word checks usize_mod cap new_len
    ok (record v { len = new_len % u32_mod; grow_elts = clamp_u8 new_grow_elts })

  unfoldable pub remove : VecRef T → ℕ → Outcome (T × VecRef T)
  remove v index = do
    assert (ltb index v.len)
    ret ← read v.slots index
    moved ← copy v.slots (index + 1) index (v.len - index - 1)
    grow ← add_word checks u8_mod v.grow_elts 1
    ok (ret, record v { len = v.len - 1; grow_elts = grow; slots = moved })

  -- The element is read after the header is updated.
  unfoldable pub pop_some : VecRef T → Outcome (Option T × VecRef T)
  pop_some v = do
    grow ← add_word checks u8_mod v.grow_elts 1
    x ← read v.slots (v.len - 1)
    ok (some x, record v { len = v.len - 1; grow_elts = grow })

  unfoldable pub pop : VecRef T → Outcome (Option T × VecRef T)
  unfolding pop_some
  pop v = if v.len == 0 then ok (none, v) else pop_some v

  -- The list is the elements that `drop_in_place` drops. `saturating_add` is on u32.
  unfoldable pub clear : VecRef T → Outcome (List T × VecRef T)
  unfolding as_slice
  clear v = do
    elems ← as_slice v
    let cap = if ltb (v.len + v.grow_elts) u32_mod then v.len + v.grow_elts else u32_mod - 1
    ok (elems, record v { len = 0; grow_elts = clamp_u8 cap })
