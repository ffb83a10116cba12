-- ===== src/NumUnaligned/RoundTrip.antt =====
-- The byte orders of num_unaligned.rs.
use vpp_plugin_rs.Outcome.Laws.{sub_word-ok, add_word-ok}
use vpp_plugin_rs.NumUnaligned.{
  sub, add, ok, new, get, to_be, swap_bytes, from_bytes, memory, from_be, to_bytes, swap_primitive,
  Unaligned,
}
use vpp_plugin_rs.Outcome.{ok, ◌>>=◌}
use vpp_plugin_rs.NumUnaligned.Bytes.{
  from_bytes-to_bytes, from_bytes-lt, length-to_bytes, to_bytes-AllBelow, to_bytes-from_bytes,
}
use vpp_plugin_rs.Prelude.{
  reverse-reverse, subst, ℕ, ◌+◌, ◌^◌, ◌<◌, ◌≡◌, refl, ap, ◌∙◌, Bool, true, false, reverse, arith,
  length,
}
use vpp_plugin_rs.Prelude.Bounded.{length-reverse, AllBelow-reverse, AllBelow}

swapped-AllBelow : (n x : ℕ) → AllBelow 256 (reverse (to_bytes n x))
swapped-AllBelow n x = AllBelow-reverse 256 (to_bytes n x) (to_bytes-AllBelow n x)

length-swapped : (n x : ℕ) → length (reverse (to_bytes n x)) ≡ n
length-swapped n x = length-reverse (to_bytes n x) ∙ length-to_bytes n x

to_bytes-swap_primitive : (n x : ℕ) → to_bytes n (swap_primitive n x) ≡ reverse (to_bytes n x)
unfolding swap_primitive
to_bytes-swap_primitive n x =
    to_bytes-from_bytes n (reverse (to_bytes n x)) (length-swapped n x) (swapped-AllBelow n x)

swap_primitive-swap_primitive : (n x : ℕ) → x < 256 ^ n → swap_primitive n (swap_primitive n x) ≡ x
unfolding swap_primitive
swap_primitive-swap_primitive n x h =
    ap (λ bs. from_bytes (reverse bs)) (to_bytes-swap_primitive n x)
    ∙ (ap from_bytes (reverse-reverse (to_bytes n x)) ∙ from_bytes-to_bytes n x h)

-- swap_bytes gives a number of the same width.
pub swap_bytes-lt :
    (size : ℕ) (big_endian : Bool) (u : Unaligned size)
    → (swap_bytes size big_endian u).value < 256 ^ size
unfolding swap_bytes swap_primitive get
swap_bytes-lt size big_endian u =
    subst (λ n. from_bytes (reverse (to_bytes size u.value)) < 256 ^ n)
      (length-swapped size u.value)
      (from_bytes-lt (reverse (to_bytes size u.value)) (swapped-AllBelow size u.value))

-- from_be gives back the number that to_be was called on, for every number of the width, on a
-- big-endian and on a little-endian target.
pub from_be-to_be :
    (size : ℕ) (big_endian : Bool) (u : Unaligned size)
    → u.value < 256 ^ size
    → from_be size big_endian (to_be size big_endian u) ≡ u
unfolding from_be to_be new get
from_be-to_be size true u h = refl
from_be-to_be size false u h =
    ap (λ x. record { value = x }) (swap_primitive-swap_primitive size u.value h)

-- What to_be gives lies in memory as the same bytes on either kind of target, the most significant
-- first, a value that does not fit the width being cut to it.
pub memory-to_be :
    (size : ℕ) (big_endian : Bool) (u : Unaligned size)
    → memory size big_endian (to_be size big_endian u) ≡ reverse (to_bytes size u.value)
unfolding memory to_be get
memory-to_be size true u = refl
memory-to_be size false u = to_bytes-swap_primitive size u.value

-- Where the sum of two unsigned numbers fits their width, subtracting the second from it succeeds
-- and gives the first.
pub add-sub :
    (checks : Bool) (size : ℕ) (big_endian : Bool) (u v : Unaligned size)
    → u.value + v.value < 256 ^ size
    → (add checks size big_endian u v >>= λ w. sub checks size big_endian w v) ≡ ok u
unfolding add sub new get
add-sub checks size big_endian u v fits =
    rw
      (
        add_word-ok checks (256 ^ size) u.value v.value fits,
        sub_word-ok checks (256 ^ size) (u.value + v.value) v.value (omega arith),
      )
      (ap (λ n. ok (record { value = n })) (omega arith))
