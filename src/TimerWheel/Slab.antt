-- ===== src/TimerWheel/Slab.antt =====
-- The `Slab` of the crate slab, as its documentation describes it. `put` is a write through the
-- reference that indexing gives.
use vpp_plugin_rs.Prelude.{ℕ, ◌≡◌, Option, none, some, if◌then◌else◌, ◌==◌}

pub record Slab (E S : Type 0) : Type 0 where
  pub new : S
  pub get : S → ℕ → Option E
  pub insert : S → E → ℕ × S
  pub put : S → ℕ → E → S
  pub remove : S → ℕ → S

pub record IsSlab {E S : Type 0} (slab : Slab E S) : Type 0 where
  pub get_new : (j : ℕ) → slab.get slab.new j ≡ none
  pub get_insert :
      (s : S) (e : E) (key : ℕ) (s' : S)
      → slab.insert s e ≡ (key, s')
      → (j : ℕ) → slab.get s' j ≡ (if key == j then some e else slab.get s j)
  pub vacant :
      (s : S) (e : E) (key : ℕ) (s' : S) → slab.insert s e ≡ (key, s') → slab.get s key ≡ none
  pub get_put :
      (s : S) (i : ℕ) (old e : E) (j : ℕ)
      → slab.get s i ≡ some old
      → slab.get (slab.put s i e) j ≡ (if i == j then some e else slab.get s j)
  pub get_remove :
      (s : S) (i : ℕ) (old : E) (j : ℕ)
      → slab.get s i ≡ some old
      → slab.get (slab.remove s i) j ≡ (if i == j then none else slab.get s j)
