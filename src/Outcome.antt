-- ===== src/Outcome.antt =====
-- What a run of the modelled code ends in, and the machine arithmetic that it computes with.
--
-- `panicked` is a Rust panic. `fault` is undefined behaviour: an access outside an allocation or a
-- read of memory that nothing has initialised. `checks` says how the crate is built: `true` with
-- overflow checks and debug assertions (a debug build), `false` without (a release build).
pub mod Laws
use vpp_plugin_rs.Prelude.{ℕ, ◌+◌, ◌-◌, ◌%◌, ◌^◌, Bool, true, false, ltb, leb, if◌then◌else◌}

pub data Outcome {ℓ} (A : Type ℓ) : Type ℓ where
  ok : A → Outcome A
  panicked : Outcome A
  fault : Outcome A

-- `assert!`
abbrev pub assert : Bool → Outcome (Unit {0})
assert true = ok tt
assert false = panicked

-- `debug_assert!`
abbrev pub debug_assert : Bool → Bool → Outcome (Unit {0})
debug_assert true b = assert b
debug_assert false b = ok tt

-- The first outcome that is not `ok` ends the run.
infixl 5 ◌>>=◌
abbrev pub ◌>>=◌ {ℓ κ} : {A : Type ℓ} {B : Type κ} → Outcome A → (A → Outcome B) → Outcome B
fault >>= rest = fault
panicked >>= rest = panicked
ok a >>= rest = rest a

infixl 5 ◌>>◌
abbrev pub ◌>>◌ {ℓ} : {B : Type ℓ} → Outcome (Unit {0}) → Outcome B → Outcome B
fault >> rest = fault
panicked >> rest = panicked
ok done >> rest = rest

abbrev pub u8_mod : ℕ
u8_mod = 2 ^ 8

abbrev pub u16_mod : ℕ
u16_mod = 2 ^ 16

abbrev pub u32_mod : ℕ
u32_mod = 2 ^ 32

abbrev pub usize_mod : ℕ
usize_mod = 2 ^ 64

-- `a + b` and `a - b` on words below `modulus`: out of range, a panic where overflow is checked,
-- and else the wrapped word.
abbrev pub add_word : Bool → ℕ → ℕ → ℕ → Outcome ℕ
add_word checks modulus a b =
    if ltb (a + b) modulus then ok (a + b) else if checks then panicked else ok ((a + b) % modulus)

abbrev pub sub_word : Bool → ℕ → ℕ → ℕ → Outcome ℕ
sub_word checks modulus a b =
    if leb b a then ok (a - b) else if checks then panicked else ok ((a + modulus - b) % modulus)

-- `n.try_into().unwrap_or(u8::MAX)`
abbrev pub clamp_u8 : ℕ → ℕ
clamp_u8 n = if ltb n u8_mod then n else 255
