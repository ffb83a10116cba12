-- ===== src/NumUnaligned/Bytes.antt =====
-- Words and their bytes.
use native.Mathlib.Omega.{pow_step}
use vpp_plugin_rs.Prelude.Bounded.{AllBelow}
use vpp_plugin_rs.NumUnaligned.{from_bytes, to_bytes}
use vpp_plugin_rs.Prelude.{
  ℕ, zero, suc, ◌+◌, ◌*◌, ◌/◌, ◌%◌, ◌^◌, ◌<◌, ◌≡◌, refl, ap, List, [], ◌∷◌, arith, length,
}

pub length-to_bytes : (n x : ℕ) → length (to_bytes n x) ≡ n
unfolding to_bytes
length-to_bytes zero x = refl
length-to_bytes (suc n) x = ap suc (length-to_bytes n (x / 256))

pub to_bytes-AllBelow : (n x : ℕ) → AllBelow 256 (to_bytes n x)
unfolding to_bytes AllBelow
to_bytes-AllBelow zero x = tt
to_bytes-AllBelow (suc n) x = (omega arith, to_bytes-AllBelow n (x / 256))

pub to_bytes-from_bytes :
    (n : ℕ) (bs : List ℕ) → length bs ≡ n → AllBelow 256 bs → to_bytes n (from_bytes bs) ≡ bs
unfolding to_bytes from_bytes AllBelow
to_bytes-from_bytes zero [] e h = refl
to_bytes-from_bytes zero (b ∷ bs) e h = absurd (omega arith)
to_bytes-from_bytes (suc n) [] e h = absurd (omega arith)
to_bytes-from_bytes (suc n) (b ∷ bs) e (h, t) =
    let low : (b + 256 * from_bytes bs) % 256 ≡ b = omega arith in
    let high : (b + 256 * from_bytes bs) / 256 ≡ from_bytes bs = omega arith in
    rw (low, high, to_bytes-from_bytes n bs (omega arith) t)

pub from_bytes-to_bytes : (n x : ℕ) → x < 256 ^ n → from_bytes (to_bytes n x) ≡ x
unfolding to_bytes from_bytes
from_bytes-to_bytes zero x h = omega arith
from_bytes-to_bytes (suc n) x h =
    omega (arith, from_bytes-to_bytes n (x / 256) (omega (arith, h, pow_step 256 n)))

pub from_bytes-lt : (bs : List ℕ) → AllBelow 256 bs → from_bytes bs < 256 ^ length bs
unfolding from_bytes AllBelow
from_bytes-lt [] h = omega arith
from_bytes-lt (b ∷ bs) (h, t) = omega (arith, from_bytes-lt bs t, pow_step 256 (length bs))
