-- ===== src/VppVec/Raw.antt =====
-- The memory of a VPP vector, and the accesses through raw pointers that vec.rs makes: `ptr::read`,
-- `ptr::write`, `ptr::copy` and `slice::from_raw_parts`. An access outside the allocation, or a
-- read of a slot that holds no value, is a fault.
use vpp_plugin_rs.Prelude.{
  ℕ, zero, suc, ◌+◌, ◌&&◌, Option, none, some, List, [], ◌∷◌, ◌++◌, leb, ltb, length, get_elem?,
  set, take, drop, if◌then◌else◌,
}
use vpp_plugin_rs.Outcome.{Outcome, ok, fault, ◌>>=◌}

-- `vec_header_t` with the slots behind it. `len` is a u32 and `grow_elts` a u8.
pub record VecRef {ℓ} (T : Type ℓ) : Type ℓ where
  pub len : ℕ
  pub grow_elts : ℕ
  pub slots : List (Option T)

-- `Vec(*mut T)`
abbrev pub Vec {ℓ} : Type ℓ → Type ℓ
Vec T = Option (VecRef T)

module _ {ℓ} {T : Type ℓ} where
  abbrev pub initialised : Option (Option T) → Outcome T
  initialised none = fault
  initialised (some none) = fault
  initialised (some (some x)) = ok x

  unfoldable pub read : List (Option T) → ℕ → Outcome T
  read slots i = initialised (get_elem? slots i)

  unfoldable pub write : List (Option T) → ℕ → T → Outcome (List (Option T))
  write slots i x = if ltb i (length slots) then ok (set slots i (some x)) else fault

  -- `ptr::copy(base + from, base + to, count)`: the two ranges may overlap.
  unfoldable pub copy : List (Option T) → ℕ → ℕ → ℕ → Outcome (List (Option T))
  copy slots from to count =
      if leb (from + count) (length slots) && leb (to + count) (length slots)
      then ok (take to slots ++ (take count (drop from slots) ++ drop (to + count) slots))
      else fault

  -- `slice::from_raw_parts(base, count)`, whose elements must all be initialised.
  unfoldable pub read_all : List (Option T) → ℕ → Outcome (List T)
  read_all slots zero = ok []
  read_all [] (suc n) = fault
  read_all (none ∷ slots) (suc n) = fault
  read_all (some x ∷ slots) (suc n) = do xs ← read_all slots n; ok (x ∷ xs)
