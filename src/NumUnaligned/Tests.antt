-- ===== src/NumUnaligned/Tests.antt =====
-- Numbers of two, four and eight bytes, and the theorems at them.
use vpp_plugin_rs.NumUnaligned.RoundTrip.{from_be-to_be}
use vpp_plugin_rs.NumUnaligned.{to_be, from_bytes, to_bytes, from_be, swap_primitive, Unaligned}
use vpp_plugin_rs.Prelude.{◌≡◌, refl, false, arith}

swapped_u16 : swap_primitive 2 0x1234 ≡ 0x3412
unfolding swap_primitive to_bytes from_bytes
swapped_u16 = refl

swapped_u32 : swap_primitive 4 0x12345678 ≡ 0x78563412
unfolding swap_primitive to_bytes from_bytes
swapped_u32 = refl

swapped_u64 : swap_primitive 8 0x1234567890123456 ≡ 0x5634129078563412
unfolding swap_primitive to_bytes from_bytes
swapped_u64 = refl

abbrev u32_value : Unaligned 4
u32_value = record { value = 0x12345678 }

from_be-to_be_example : from_be 4 false (to_be 4 false u32_value) ≡ u32_value
from_be-to_be_example = from_be-to_be 4 false u32_value (omega arith)
