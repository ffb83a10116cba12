-- ===== src/ApiStrings/Counted.antt =====
-- `ApiString`: the length, and the memory behind it, of which the length must lie inside.
use vpp_plugin_rs.Prelude.{ℕ, Bool, List, ◌++◌, leb, ◌==◌, if◌then◌else◌, length, take, drop}
use vpp_plugin_rs.Outcome.{Outcome, ok, panicked, fault, ◌>>=◌}
use vpp_plugin_rs.NumUnaligned.{swap_primitive}

pub record ApiString : Type 0 where
  pub length_field : ℕ
  pub memory : List ℕ

unfoldable pub len : ApiString → ℕ
len s = s.length_field

unfoldable pub is_empty : ApiString → Bool
is_empty s = s.length_field == 0

unfoldable pub as_bytes : ApiString → Outcome (List ℕ)
as_bytes s =
    if leb s.length_field (length s.memory) then ok (take s.length_field s.memory) else fault

unfoldable pub set_len : ApiString → ℕ → ApiString
set_len s n = record s { length_field = n }

-- `copy_from_slice` panics where the lengths differ.
unfoldable pub copy_from_str : ApiString → List ℕ → Outcome ApiString
copy_from_str s bytes = do
  old ← as_bytes s
  if length old == length bytes
      then ok (record s { memory = bytes ++ drop (length bytes) s.memory })
      else panicked

-- `to_be` of the length field; the bytes have no order to swap.
unfoldable pub endian_swap : Bool → ApiString → ApiString
endian_swap big_endian s = record s {
  length_field = if big_endian then s.length_field else swap_primitive 4 s.length_field;
}
