-- ===== src/Prelude/Int.antt =====
-- Signed integers, for the i16 of a buffer: `pos n` is n and `negsuc n` is -(n + 1).
use Prim.Native.Nat.{ℕ, suc, ◌+◌, ◌-◌, ◌%◌, ◌^◌, ◌≤◌}
use mathlib.Core.Bool.{Bool}
use mathlib.Core.Path.{◌≡◌}
use native.Mathlib.Omega.{arith}
use vpp_plugin_rs.Prelude.Tests.{ltb, leb, if◌then◌else◌}

pub data ℤ : Type 0 where
  pos : ℕ → ℤ
  negsuc : ℕ → ℤ

-- What an integer is above zero, and what it is below.
abbrev pub above : ℤ → ℕ
above (pos n) = n
above (negsuc n) = 0

abbrev pub below : ℤ → ℕ
below (pos n) = 0
below (negsuc n) = suc n

abbrev pub difference : ℕ → ℕ → ℤ
difference a b = if ltb a b then negsuc (b - suc a) else pos (a - b)

infixl 65 ◌+ℤ◌
unfoldable pub ◌+ℤ◌ : ℤ → ℤ → ℤ
x +ℤ y = difference (above x + above y) (below x + below y)

unfoldable pub neg : ℤ → ℤ
neg x = difference (below x) (above x)

abbrev pub leb_ℤ : ℤ → ℤ → Bool
leb_ℤ x y = leb (above x + below y) (above y + below x)

infix 50 ◌≤ℤ◌
abbrev pub ◌≤ℤ◌ : ℤ → ℤ → Type 0
x ≤ℤ y = above x + below y ≤ above y + below x

-- The two's complement of 16 bits, and the integer of 16 bits.
unfoldable pub bits_16 : ℤ → ℕ
bits_16 (pos n) = n % 2 ^ 16
bits_16 (negsuc n) = 2 ^ 16 - 1 - n % 2 ^ 16

unfoldable pub of_bits_16 : ℕ → ℤ
of_bits_16 b = if ltb b (2 ^ 15) then pos b else negsuc (2 ^ 16 - 1 - b)

pub difference-cong : (a b c d : ℕ) → a + d ≡ c + b → difference a b ≡ difference c d
difference-cong a b c d h = ground arith

pub above-difference : (a b : ℕ) → above (difference a b) + b ≡ a + below (difference a b)
above-difference a b = ground arith

pub difference-above : (x : ℤ) → difference (above x) (below x) ≡ x
difference-above (pos n) = ground arith
difference-above (negsuc n) = ground arith

pub above-neg : (x : ℤ) → above (neg x) ≡ below x
unfolding neg
above-neg (pos n) = ground arith
above-neg (negsuc n) = ground arith

pub below-neg : (x : ℤ) → below (neg x) ≡ above x
unfolding neg
below-neg (pos n) = ground arith
below-neg (negsuc n) = ground arith

pub pos-add : (x : ℤ) (m n : ℕ) → x +ℤ pos (m + n) ≡ x +ℤ pos m +ℤ pos n
unfolding ◌+ℤ◌
pos-add x m n =
    let moved = above-difference (above x + m) (below x + 0) in
    difference-cong _ _ _ _ (omega arith)
