-- ===== src/VppVec/Spec.antt =====
-- What the operations of vec.rs promise, on lists, and what it means that code keeps the promise.
use vpp_plugin_rs.Prelude.{
  ℕ, zero, suc, ◌+◌, Option, none, some, List, [], ◌∷◌, ◌++◌, ltb, leb, length, get_elem?,
  if◌then◌else◌,
}
use vpp_plugin_rs.Outcome.{Outcome, ok, panicked, u32_mod}
use vpp_plugin_rs.VppVec.Raw.{Vec}
use vpp_plugin_rs.VppVec.Valid.{Represents}

module _ {ℓ} {A : Type ℓ} where
  abbrev pub last_of : List A → Option A
  last_of [] = none
  last_of (x ∷ []) = some x
  last_of (x ∷ y ∷ ys) = last_of (y ∷ ys)

  abbrev pub init_of : List A → List A
  init_of [] = []
  init_of (x ∷ []) = []
  init_of (x ∷ y ∷ ys) = x ∷ init_of (y ∷ ys)

  -- The list without its element at `i`.
  abbrev pub remove_at : ℕ → List A → List A
  remove_at i [] = []
  remove_at zero (x ∷ xs) = xs
  remove_at (suc i) (x ∷ xs) = x ∷ remove_at i xs

  -- The list with `v` before its element at `i`.
  abbrev pub insert_at : ℕ → A → List A → List A
  insert_at zero v xs = v ∷ xs
  insert_at (suc i) v [] = v ∷ []
  insert_at (suc i) v (x ∷ xs) = x ∷ insert_at i v xs

  -- The length of a vector is a u32: what would exceed it panics.
  abbrev pub spec_push : List A → A → Outcome (List A)
  spec_push xs x = if ltb (length xs + 1) u32_mod then ok (xs ++ x ∷ []) else panicked

  abbrev pub spec_insert : List A → ℕ → A → Outcome (List A)
  spec_insert xs i x =
      if leb i (length xs)
      then (if ltb (length xs + 1) u32_mod then ok (insert_at i x xs) else panicked)
      else panicked

  abbrev pub spec_removed : Option A → List A → Outcome (A × List A)
  spec_removed none xs = panicked
  spec_removed (some x) xs = ok (x, xs)

  abbrev pub spec_remove : List A → ℕ → Outcome (A × List A)
  spec_remove xs i = spec_removed (get_elem? xs i) (remove_at i xs)

-- The code ends as the promise on lists does, without a fault: it panics where that panics, and else
-- leaves a vector that holds the list promised.
pub data Keeps {ℓ} {T : Type ℓ} : Outcome (Vec T) → Outcome (List T) → Type ℓ where
  holding : {v : Vec T} {xs : List T} → Represents v xs → Keeps (ok v) (ok xs)
  panicking : Keeps panicked panicked

-- The same for code that returns a value too.
pub data Gives {ℓ κ} {T : Type ℓ} {A : Type κ}
    : Outcome (A × Vec T) → Outcome (A × List T) → Type (ℓ ⊔ κ) where
  giving : (a : A) {v : Vec T} {xs : List T} → Represents v xs → Gives (ok (a, v)) (ok (a, xs))
  panicking : Gives panicked panicked
