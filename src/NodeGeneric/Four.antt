-- ===== src/NodeGeneric/Four.antt =====
-- The nexts of one stride of four buffers, and of the buffers behind the last stride, in
-- vlib/node_generic.rs.
use vpp_plugin_rs.NodeGeneric.{
  feature_next, GenericFeatureNode, FeatureNextNode, next_feature, defined_node, X4, list_x4,
  same_arc, stride_nexts, override, prefetch, rest_x4,
}
use vpp_plugin_rs.VnetBuffer.{config_words, Packet, at_config}
use vpp_plugin_rs.Prelude.{
  Bool-cases, ℕ, ◌+◌, ◌%◌, ◌≡◌, refl, Bool, true, false, List, [], ◌∷◌, map, ◌⊎◌, inl, inr, arith,
}
use vpp_plugin_rs.Outcome.{ok, u16_mod}
use vpp_plugin_rs.VnetBuffer.Config.{next_index, IsConfigured, advanced}
use vpp_plugin_rs.NodeGeneric.Steps.{
  Mapped, IsBlind, value_of, moved_by, values, packets, last, AllConfigured, feature_next_lem,
  next_index-same, f-advanced,
}

-- A buffer but for its place in the configuration.
abbrev pub unplaced : {D : Type 0} → Packet D → Packet D
unplaced p = at_config p 0

-- In each full stride whose buffers are on one arc they are at one place of its configuration.
abbrev pub IsUniform : {D : Type 0} → List (Packet D) → Type 0
IsUniform [] = Unit {0}
IsUniform (a ∷ []) = Unit {0}
IsUniform (a ∷ b ∷ []) = Unit {0}
IsUniform (a ∷ b ∷ c ∷ []) = Unit {0}
IsUniform (a ∷ b ∷ c ∷ d ∷ ps) =
    ((same_arc (record { b0 = a; b1 = b; b2 = c; b3 = d }) ≡ false)
      ⊎ ((b.current_config_index ≡ a.current_config_index)
          × (c.current_config_index ≡ a.current_config_index)
          × (d.current_config_index ≡ a.current_config_index)))
    × IsUniform ps

module _ {F S D N : Type 0} (checks : Bool) (size : ℕ) (decode : List ℕ → F) (mains : List (List ℕ))
    (node : GenericFeatureNode S (Packet D) N) (f : S → Packet D → Mapped S (Packet D) N)
    (h : IsBlind f node) where
  pub override-value :
      (next : FeatureNextNode N) (p : Packet D)
      → override node next (next_index size decode mains p % u16_mod)
        ≡ value_of checks size decode mains node f next p
  override-value next_feature p = refl
  override-value (defined_node n) p = refl

  pub unplaced-moved_by :
      (next : FeatureNextNode N) (p : Packet D)
      → unplaced (moved_by checks size decode mains node f next p) ≡ unplaced p
  unfolding advanced
  unplaced-moved_by next_feature p = refl
  unplaced-moved_by (defined_node n) p = refl

  pub feature_next_own :
      (p : Packet D)
      → IsConfigured size decode mains p
      → feature_next checks size decode mains node p
        ≡ ok (next_index size decode mains p % u16_mod, advanced size decode mains p)
  feature_next_own p c = feature_next_lem checks size decode mains node f p p c refl refl

  pub rest_x4_lem :
      (s : S) (ps : List (Packet D))
      → AllConfigured checks size decode mains node f ps
      → (ps' : List (Packet D)) × (rest_x4 checks size decode mains node s ps
          ≡ ok (
            values checks size decode mains node f s ps,
            ps',
            last checks size decode mains node f s ps,
          ))
        × (map unplaced ps' ≡ map unplaced (packets checks size decode mains node f s ps))
  unfolding rest_x4 values packets last
  rest_x4_lem s [] c = ([], refl, refl)
  rest_x4_lem s (p ∷ ps) (c, cs) =
      let r = f s p in
      let (ps', e, same) = rest_x4_lem r.state ps cs in
      (
        advanced size decode mains r.packet ∷ ps',
        rw
            (
              feature_next_own p c,
              h.maps s (advanced size decode mains p),
              f-advanced checks size decode mains node f h s p,
              override-value r.next p,
              e,
            )
            refl,
        rw (unplaced-moved_by r.next r.packet, same) (unfold advanced in refl),
      )

  pub prefetch_lem :
      (s : S) (ps : List (Packet D)) → prefetch checks size decode mains node s ps ≡ ok (ps, s)
  unfolding prefetch
  prefetch_lem s [] = refl
  prefetch_lem s (a ∷ []) = refl
  prefetch_lem s (a ∷ b ∷ []) = refl
  prefetch_lem s (a ∷ b ∷ c ∷ []) = refl
  prefetch_lem s (a ∷ b ∷ c ∷ d ∷ ps) = rw (h.prefetches s _) refl

  -- The buffers of a stride at the places of its next features.
  abbrev pub placed : X4 (Packet D) → X4 ℕ → X4 (Packet D)
  placed b i = record {
    b0 = at_config b.b0 i.b0;
    b1 = at_config b.b1 i.b1;
    b2 = at_config b.b2 i.b2;
    b3 = at_config b.b3 i.b3;
  }

  abbrev pub own_nexts : X4 (Packet D) → X4 ℕ
  own_nexts b = record {
    b0 = next_index size decode mains b.b0 % u16_mod;
    b1 = next_index size decode mains b.b1 % u16_mod;
    b2 = next_index size decode mains b.b2 % u16_mod;
    b3 = next_index size decode mains b.b3 % u16_mod;
  }

  abbrev pub after : Packet D → ℕ
  after p = p.current_config_index + config_words size + 1

  -- Where only the first of the four buffers is asked.
  abbrev pub first_placed : X4 (Packet D) → X4 (Packet D)
  first_placed b = placed b (record {
    b0 = after b.b0;
    b1 = b.b1.current_config_index;
    b2 = b.b2.current_config_index;
    b3 = b.b3.current_config_index;
  })

  pub alike_stride_lem :
      (b : X4 (Packet D))
      → IsConfigured size decode mains b.b0
      → same_arc b ≡ true
      → stride_nexts checks size decode mains node b
        ≡ ok (own_nexts (record { b0 = b.b0; b1 = b.b0; b2 = b.b0; b3 = b.b0 }), first_placed b)
  unfolding stride_nexts advanced
  alike_stride_lem b c arcs = rw (arcs, feature_next_own b.b0 c) refl

  abbrev pub own_next : Packet D → ℕ
  own_next p = next_index size decode mains p % u16_mod

  alike_nexts_lem :
      (b : X4 (Packet D))
      → AllConfigured checks size decode mains node f (list_x4 b)
      → same_arc b ≡ true
      → (b.b1.current_config_index ≡ b.b0.current_config_index)
        × (b.b2.current_config_index ≡ b.b0.current_config_index)
        × (b.b3.current_config_index ≡ b.b0.current_config_index)
      → stride_nexts checks size decode mains node b ≡ ok (own_nexts b, first_placed b)
  alike_nexts_lem b (c₀, cs) arcs (e₁, e₂, e₃) =
      rw
        (
          alike_stride_lem b c₀ arcs,
          next_index-same checks size decode mains node f b.b0 b.b1 (ground (arith, arcs)) e₁,
          next_index-same checks size decode mains node f b.b0 b.b2 (ground (arith, arcs)) e₂,
          next_index-same checks size decode mains node f b.b0 b.b3 (ground (arith, arcs)) e₃,
        )
        refl

  unlike_nexts_lem :
      (b : X4 (Packet D))
      → AllConfigured checks size decode mains node f (list_x4 b)
      → same_arc b ≡ false
      → stride_nexts checks size decode mains node b
        ≡ ok (
          own_nexts b,
          placed b (record { b0 = after b.b0; b1 = after b.b1; b2 = after b.b2; b3 = after b.b3 }),
        )
  unfolding stride_nexts advanced
  unlike_nexts_lem b (c₀, (c₁, (c₂, (c₃, done)))) arcs =
      rw
        (
          arcs,
          feature_next_own b.b0 c₀,
          feature_next_own b.b1 c₁,
          feature_next_own b.b2 c₂,
          feature_next_own b.b3 c₃,
        )
        refl

  pub stride_nexts_lem :
      (b : X4 (Packet D))
      → AllConfigured checks size decode mains node f (list_x4 b)
      → IsUniform (list_x4 b)
      → (i : X4 ℕ) × (stride_nexts checks size decode mains node b ≡ ok (own_nexts b, placed b i))
  stride_nexts_lem b c (inl arcs, end) = (_, unlike_nexts_lem b c arcs)
  stride_nexts_lem b c (inr e, end) = elim (Bool-cases (same_arc b)) [
    | inl arcs ↦ (_, alike_nexts_lem b c arcs e)
    | inr arcs ↦ (_, unlike_nexts_lem b c arcs)
  ]
