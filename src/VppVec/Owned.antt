-- ===== src/VppVec/Owned.antt =====
-- The operations of `Vec` in vec.rs, over the allocator of VPP.
use vpp_plugin_rs.Prelude.{
  ℕ, ◌+◌, ◌-◌, ◌%◌, ◌≤◌, ◌<◌, ◌≡◌, Bool, Option, none, some, List, [], leb, ltb, ◌==◌, length, take,
  if◌then◌else◌,
}
use vpp_plugin_rs.Outcome.{
  Outcome, ok, panicked, fault, ◌>>=◌, ◌>>◌, assert, debug_assert, u8_mod, u32_mod, usize_mod,
  add_word, sub_word,
}
use vpp_plugin_rs.VppVec.Raw.{VecRef, Vec, write, copy}
use vpp_plugin_rs.VppVec.Slice

-- `_vec_alloc_internal` and `_vec_resize_internal` of VPP, which are C code. They return a vector of
-- the length that is asked for, or abort.
pub record Allocator {ℓ} (T : Type ℓ) : Type ℓ where
  pub alloc : ℕ → VecRef T
  pub resize : Vec T → ℕ → VecRef T

-- A vector whose header agrees with its allocation.
pub record IsSized {ℓ} {T : Type ℓ} (v : VecRef T) (n : ℕ) : Type 0 where
  pub len_eq : v.len ≡ n
  pub room : n + v.grow_elts ≤ length v.slots
  pub byte : v.grow_elts < u8_mod
  pub word : n + v.grow_elts < u32_mod

-- What vec.rs relies on: the vector returned has the length asked for, its header describes memory
-- that was allocated, and a resize to a greater length keeps the old slots.
pub record IsVppAllocator {ℓ} {T : Type ℓ} (a : Allocator T) : Type ℓ where
  pub alloc_sized : (n : ℕ) → n < u32_mod → IsSized (a.alloc n) n
  pub resize_sized : (v : Vec T) (n : ℕ) → n < u32_mod → IsSized (a.resize v n) n
  pub resize_keeps :
      (v : VecRef T) (n : ℕ)
      → v.len + v.grow_elts ≤ length v.slots
      → v.len ≤ n
      → take v.len (a.resize (some v) n).slots ≡ take v.len v.slots

module _ {ℓ} {T : Type ℓ} (checks : Bool) (a : Allocator T) where
  unfoldable pub len : Vec T → ℕ
  len none = 0
  len (some v) = Slice.len checks v

  unfoldable pub capacity : Vec T → Outcome ℕ
  capacity none = ok 0
  capacity (some v) = Slice.capacity checks v

  unfoldable pub as_slice : Vec T → Outcome (List T)
  as_slice none = ok []
  as_slice (some v) = if len (some v) == 0 then ok [] else Slice.as_slice checks v

  unfoldable pub spare_capacity_mut : Vec T → Outcome ℕ
  spare_capacity_mut none = ok 0
  spare_capacity_mut (some v) = Slice.spare_capacity_mut checks v

  unfoldable pub set_len : Vec T → ℕ → Outcome (Vec T)
  set_len none new_len = do debug_assert checks (new_len == 0); ok none
  set_len (some v) new_len = do v' ← Slice.set_len checks v new_len; ok (some v')

  unfoldable pub new : Vec T
  new = none

  unfoldable pub with_capacity : ℕ → Outcome (Vec T)
  with_capacity cap = set_len (some (a.alloc cap)) 0

  -- `len + additional` must fit a u32; that it fits a usize is the weaker test before it.
  unfoldable pub reserve : Vec T → ℕ → Outcome (Vec T)
  reserve v additional = do
    let new_len = len v + additional
    assert (ltb new_len usize_mod)
    assert (ltb new_len u32_mod)
    set_len (some (a.resize v new_len)) (len v)

  -- Writes through a null pointer are faults.
  unfoldable pub push_end : Vec T → ℕ → T → Outcome (Vec T)
  push_end none n value = fault
  push_end (some v) n value = do
    slots ← write v.slots n value
    len' ← add_word checks u32_mod (n % u32_mod) 1
    grow ← sub_word checks u8_mod v.grow_elts 1
    ok (some (record v { len = len'; grow_elts = grow; slots = slots }))

  unfoldable pub push : Vec T → T → Outcome (Vec T)
  push v value = do
    cap ← capacity v
    v' ← if len v == cap then reserve v 1 else ok v
    push_end v' (len v) value

  unfoldable pub insert_slot : Vec T → ℕ → ℕ → T → Outcome (Vec T)
  insert_slot none index n element = fault
  insert_slot (some v) index n element = do
    moved ← if ltb index n then copy v.slots index (index + 1) (n - index) else ok v.slots
    slots ← write moved index element
    len' ← add_word checks u32_mod (n % u32_mod) 1
    grow ← sub_word checks u8_mod v.grow_elts 1
    ok (some (record v { len = len'; grow_elts = grow; slots = slots }))

  unfoldable pub insert_mut : Vec T → ℕ → T → Outcome (Vec T)
  insert_mut v index element = do
    cap ← capacity v
    assert (leb index (len v))
    v' ← if len v == cap then reserve v 1 else ok v
    insert_slot v' index (len v) element

  unfoldable pub remove : Vec T → ℕ → Outcome (T × Vec T)
  remove none index = panicked
  remove (some v) index = do (x, v') ← Slice.remove checks v index; ok (x, some v')

  unfoldable pub pop : Vec T → Outcome (Option T × Vec T)
  pop none = ok (none, none)
  pop (some v) = do (x, v') ← Slice.pop checks v; ok (x, some v')

  unfoldable pub clear : Vec T → Outcome (List T × Vec T)
  clear none = ok ([], none)
  clear (some v) = do (xs, v') ← Slice.clear checks v; ok (xs, some v')
