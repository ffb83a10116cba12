-- ===== src/VppVec/Collect.antt =====
-- The loops of vec.rs: `extend_with`, `extend`, `from_iter`, `to_vpp_vec`, `clone`, and the owning
-- iterator `IntoIter`.
use vpp_plugin_rs.Prelude.{
  ℕ, ◌+◌, ◌-◌, Bool, true, false, Option, none, some, List, [], ◌∷◌, ltb, ◌==◌, length, take, drop,
  map, replicate, min, if◌then◌else◌,
}
use vpp_plugin_rs.Outcome.{Outcome, ok, fault, ◌>>=◌, usize_mod, add_word}
use vpp_plugin_rs.VppVec.Raw.{Vec, read, write, read_all}
use vpp_plugin_rs.VppVec.Owned.{Allocator}
use vpp_plugin_rs.VppVec.Owned

module _ {ℓ} {T : Type ℓ} where
  -- `ptr::write` of one element after the other, from slot `i` on.
  unfoldable pub write_each : List (Option T) → ℕ → List T → Outcome (List (Option T))
  write_each slots i [] = ok slots
  write_each slots i (x ∷ xs) = do slots' ← write slots i x; write_each slots' (i + 1) xs

  unfoldable pub write_all : Vec T → ℕ → List T → Outcome (Vec T)
  write_all none i [] = ok none
  write_all none i (x ∷ xs) = fault
  write_all (some v) i xs = do
    slots ← write_each v.slots i xs
    ok (some (record v { slots = slots }))

module _ {ℓ} {T : Type ℓ} (checks : Bool) (a : Allocator T) where
  -- `clone` is the element's own `Clone::clone`.
  unfoldable pub extend_with : (T → T) → Vec T → ℕ → T → Outcome (Vec T)
  extend_with clone v n value = do
    v₁ ← Owned.reserve checks a v n
    new_len ← add_word checks usize_mod (Owned.len checks a v₁) n
    let start = Owned.len checks a v₁
    v₂ ← write_all v₁ start (replicate (n - 1) (clone value))
    v₃ ← if ltb 0 n then write_all v₂ (start + (n - 1)) (value ∷ []) else ok v₂
    Owned.set_len checks a v₃ new_len

  -- One round of `extend`: `lower` is the iterator's lower bound on the items after this one.
  unfoldable pub extend_one : ℕ → Vec T → T → Outcome (Vec T)
  extend_one lower v element = do
    cap ← Owned.capacity checks a v
    let n = Owned.len checks a v
    v₁ ← if n == cap then Owned.reserve checks a v (min (lower + 1) (usize_mod - 1)) else ok v
    v₂ ← write_all v₁ n (element ∷ [])
    Owned.set_len checks a v₂ (n + 1)

  -- The iterator is the list of its items, with the lower bound that it gives on those left.
  unfoldable pub extend : (List T → ℕ) → Vec T → List T → Outcome (Vec T)
  extend lower v [] = ok v
  extend lower v (x ∷ xs) = do v' ← extend_one (lower xs) v x; extend lower v' xs

  unfoldable pub push_all : Vec T → List T → Outcome (Vec T)
  push_all v [] = ok v
  push_all v (x ∷ xs) = do v' ← Owned.push checks a v x; push_all v' xs

  -- `size` is what the iterator's size hint gives: the upper bound if there is one.
  unfoldable pub from_iter : ℕ → List T → Outcome (Vec T)
  from_iter size items = do v ← Owned.with_capacity checks a size; push_all v items

  unfoldable pub to_vpp_vec : (T → T) → List T → Outcome (Vec T)
  to_vpp_vec clone xs = do
    v ← Owned.with_capacity checks a (length xs)
    n ← Owned.spare_capacity_mut checks a v
    v' ← write_all v (Owned.len checks a v) (map clone (take n xs))
    Owned.set_len checks a v' (length xs)

  unfoldable pub clone_vec : (T → T) → Vec T → Outcome (Vec T)
  clone_vec clone v = do xs ← Owned.as_slice checks a v; to_vpp_vec clone xs

  -- `Drop`: the elements that are dropped, and whether the memory is freed.
  unfoldable pub drop_vec : Vec T → Outcome (List T × Bool)
  drop_vec none = ok ([], false)
  drop_vec (some v) = do xs ← Owned.as_slice checks a (some v); ok (xs, true)

-- `IntoIter`: the allocation, the slots of the first element left and behind the last, and how many
-- are left.
pub record IntoIter {ℓ} (T : Type ℓ) : Type ℓ where
  pub start_ptr : Vec T
  pub ptr : ℕ
  pub end_ptr : ℕ
  pub len : ℕ

module _ {ℓ} {T : Type ℓ} where
  abbrev pub memory : Vec T → List (Option T)
  memory none = []
  memory (some v) = v.slots

  abbrev pub is_allocated : Vec T → Bool
  is_allocated none = false
  is_allocated (some v) = true

  unfoldable pub next : IntoIter T → Outcome (Option T × IntoIter T)
  next it = if it.len == 0 then ok (none, it) else do
    item ← read (memory it.start_ptr) it.ptr
    ok (some item, record it { ptr = it.ptr + 1; len = it.len - 1 })

  unfoldable pub next_back : IntoIter T → Outcome (Option T × IntoIter T)
  next_back it = if it.len == 0 then ok (none, it) else do
    item ← read (memory it.start_ptr) (it.end_ptr - 1)
    ok (some item, record it { end_ptr = it.end_ptr - 1; len = it.len - 1 })

  -- `Drop`: the elements left, and whether the memory is freed.
  unfoldable pub drop_iter : IntoIter T → Outcome (List T × Bool)
  drop_iter it = do
    xs ← if ltb 0 it.len then read_all (drop it.ptr (memory it.start_ptr)) it.len else ok []
    ok (xs, is_allocated it.start_ptr)

module _ {ℓ} {T : Type ℓ} (checks : Bool) (a : Allocator T) where
  unfoldable pub into_iter : Vec T → IntoIter T
  into_iter v = record {
    start_ptr = v;
    ptr = 0;
    end_ptr = Owned.len checks a v;
    len = Owned.len checks a v;
  }
