-- ===== src/Outcome/Laws.antt =====
-- The checked operations where nothing overflows.
use vpp_plugin_rs.Prelude.{refl, true, false, ℕ, ◌+◌, ◌-◌, ◌≤◌, ◌<◌, ◌≡◌, Bool, lt→ltb, le→leb}
use vpp_plugin_rs.Outcome.{true, debug_assert, ok, add_word, sub_word}

pub add_word-ok : (checks : Bool) (m a b : ℕ) → a + b < m → add_word checks m a b ≡ ok (a + b)
add_word-ok checks m a b h = rw (lt→ltb (a + b) m h)

pub sub_word-ok : (checks : Bool) (m a b : ℕ) → b ≤ a → sub_word checks m a b ≡ ok (a - b)
sub_word-ok checks m a b h = rw (le→leb b a h)

pub debug_assert-true : (checks : Bool) → debug_assert checks true ≡ ok tt
debug_assert-true true = refl
debug_assert-true false = refl
