-- ===== src/VnetBuffer/Config.antt =====
-- The walk of a buffer through the configuration of its feature arc.
use vpp_plugin_rs.Outcome.Laws.{add_word-ok}
use vpp_plugin_rs.Outcome.{ok, u32_mod}
use vpp_plugin_rs.Prelude.{
  ℕ, zero, suc, ◌+◌, ◌<◌, ◌≡◌, refl, Bool, some, List, [], ◌∷◌, length, take, drop, get_elem?,
  arith,
}
use vpp_plugin_rs.VnetBuffer.{
  ok, unwrap_or, Packet, arc_of, at_config, config_words, vnet_get_config_data, vnet_feature_next,
}

-- A position inside a list has an element.
get_elem?-inside :
    {A : Type 0} (xs : List A) (i : ℕ) (d : A)
    → i < length xs
    → get_elem? xs i ≡ some (unwrap_or (get_elem? xs i) d)
get_elem?-inside [] i d h = absurd (omega arith)
get_elem?-inside (x ∷ xs) zero d h = refl
get_elem?-inside (x ∷ xs) (suc i) d h = get_elem?-inside xs i d (omega arith)

module _ {F : Type 0} (size : ℕ) (decode : List ℕ → F) (mains : List (List ℕ)) where
  -- What the walk gives where it stays in the heap; zeroes elsewhere.
  unfoldable pub heap_of : {D : Type 0} → Packet D → List ℕ
  heap_of p = unwrap_or (get_elem? mains (arc_of p)) []

  unfoldable pub next_index : {D : Type 0} → Packet D → ℕ
  next_index p = unwrap_or (get_elem? (heap_of p) (p.current_config_index + config_words size)) 0

  unfoldable pub feature_data : {D : Type 0} → Packet D → F
  feature_data p = decode (take (config_words size) (drop p.current_config_index (heap_of p)))

  unfoldable pub advanced : {D : Type 0} → Packet D → Packet D
  advanced p = at_config p (p.current_config_index + config_words size + 1)

  -- The arc has a heap, which holds the data at the position and the next index behind it.
  abbrev pub IsConfigured : {D : Type 0} → Packet D → Type 0
  IsConfigured p =
      (arc_of p < length mains)
      × (p.current_config_index + config_words size < length (heap_of p))
      × (length (heap_of p) < u32_mod)

  pub vnet_feature_next_lem :
      {D : Type 0} (checks : Bool) (p : Packet D)
      → IsConfigured p
      → vnet_feature_next checks size decode mains p
        ≡ ok ((next_index p, feature_data p), advanced p)
  unfolding vnet_feature_next vnet_get_config_data heap_of next_index feature_data advanced
  vnet_feature_next_lem checks p (arc, inside, small) =
      let heap = unwrap_or (get_elem? mains (arc_of p)) [] in
      let i = p.current_config_index in
      rw
        (
          get_elem?-inside mains (arc_of p) [] arc,
          get_elem?-inside heap (i + config_words size) 0 inside,
          add_word-ok checks u32_mod i (config_words size) (omega arith),
          add_word-ok checks u32_mod (i + config_words size) 1 (omega arith),
        )
        refl
