-- ===== src/NumUnaligned.antt =====
-- vpp-plugin/src/vlibapi/num_unaligned.rs: numbers that may stand at any address, as the messages of
-- the API hold them. One macro writes the integer types, so a type is its number of bytes here. A
-- value is the number that its bits give, which for the signed types and for `UnalignedF64` is the
-- two's complement and the IEEE representation. The signed and floating-point arithmetic, the
-- comparisons and the printing are those of the primitive types.
pub mod Bytes
pub mod RoundTrip
mod Tests
use vpp_plugin_rs.Prelude.{
  ℕ, zero, suc, ◌+◌, ◌*◌, ◌/◌, ◌%◌, ◌^◌, Bool, true, false, List, [], ◌∷◌, reverse, if◌then◌else◌,
  ltb, ◌==◌,
}
use vpp_plugin_rs.Outcome.{Outcome, ok, panicked, ◌>>=◌, add_word, sub_word}

-- The bytes of a word in memory, on a little-endian target, and the word of some bytes.
unfoldable pub to_bytes : ℕ → ℕ → List ℕ
to_bytes zero x = []
to_bytes (suc n) x = x % 256 ∷ to_bytes n (x / 256)

unfoldable pub from_bytes : List ℕ → ℕ
from_bytes [] = 0
from_bytes (b ∷ bs) = b + 256 * from_bytes bs

-- `swap_bytes` of the primitive type.
unfoldable pub swap_primitive : ℕ → ℕ → ℕ
swap_primitive n x = from_bytes (reverse (to_bytes n x))

-- The struct of a primitive type with `size` bytes.
pub record Unaligned (size : ℕ) : Type 0 where
  pub value : ℕ

-- `big_endian` is the target's byte order.
module _ (size : ℕ) (big_endian : Bool) where
  unfoldable pub new : ℕ → Unaligned size
  new value = record { value = value }

  unfoldable pub get : Unaligned size → ℕ
  get u = u.value

  unfoldable pub swap_bytes : Unaligned size → Unaligned size
  swap_bytes u = record { value = swap_primitive size (get u) }

  unfoldable pub to_be : Unaligned size → Unaligned size
  to_be u = record { value = if big_endian then get u else swap_primitive size (get u) }

  unfoldable pub from_be : Unaligned size → Unaligned size
  from_be x = new (if big_endian then get x else swap_primitive size (get x))

  -- What a struct takes up in memory.
  unfoldable pub memory : Unaligned size → List ℕ
  memory u = if big_endian then reverse (to_bytes size u.value) else to_bytes size u.value

module _ (checks : Bool) (size : ℕ) (big_endian : Bool) where
  unfoldable pub add : Unaligned size → Unaligned size → Outcome (Unaligned size)
  add u rhs = do
    sum ← add_word checks (256 ^ size) (get size big_endian u) (get size big_endian rhs)
    ok (new size big_endian sum)

  unfoldable pub sub : Unaligned size → Unaligned size → Outcome (Unaligned size)
  sub u rhs = do
    difference ← sub_word checks (256 ^ size) (get size big_endian u) (get size big_endian rhs)
    ok (new size big_endian difference)
