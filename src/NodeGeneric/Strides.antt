-- ===== src/NodeGeneric/Strides.antt =====
-- The loop over strides in vlib/node_generic.rs beside the loop over single buffers.
use vpp_plugin_rs.NodeGeneric.{
  override_x4, GenericFeatureNode, FeatureNextNode, X4, list_x4, each_x1, each_x4, stride, strides,
}
use vpp_plugin_rs.VnetBuffer.{Packet, at_config}
use vpp_plugin_rs.Prelude.{
  ℕ, zero, suc, ◌*◌, ◌/◌, ◌≤◌, ◌≡◌, refl, ap, Bool, List, [], ◌∷◌, ◌++◌, map, length, arith,
}
use vpp_plugin_rs.Outcome.{ok}
use vpp_plugin_rs.NodeGeneric.Steps.{
  Mapped, IsBlind, nexts_x4, packets_x4, state_x4, value_of, values, packets, last, AllConfigured,
}
use vpp_plugin_rs.NodeGeneric.One.{each_x1_lem}
use vpp_plugin_rs.NodeGeneric.Four.{
  unplaced, IsUniform, override-value, unplaced-moved_by, rest_x4_lem, prefetch_lem,
  stride_nexts_lem, placed, own_nexts,
}

module _ {F S D N : Type 0} (checks : Bool) (size : ℕ) (decode : List ℕ → F) (mains : List (List ℕ))
    (node : GenericFeatureNode S (Packet D) N) (f : S → Packet D → Mapped S (Packet D) N)
    (h : IsBlind f node) where
  state_x4-placed :
      (s : S) (b : X4 (Packet D)) (i : X4 ℕ)
      → (f
          (f
            (f (f s (at_config b.b0 i.b0)).state (at_config b.b1 i.b1)).state
            (at_config b.b2 i.b2)).state
          (at_config b.b3 i.b3)).state
        ≡ state_x4 f s b
  unfolding state_x4
  state_x4-placed s b i =
      let r₀ = f s b.b0 in
      let r₁ = f r₀.state b.b1 in
      let r₂ = f r₁.state b.b2 in
      rw
        (
          h.moves s b.b0 i.b0,
          h.moves r₀.state b.b1 i.b1,
          h.moves r₁.state b.b2 i.b2,
          h.moves r₂.state b.b3 i.b3,
        )
        refl

  -- The node runs on buffers at other places as it does on these.
  pub maps_x4-placed :
      (s : S) (b : X4 (Packet D)) (i : X4 ℕ)
      → node.map_buffer_to_next_x4 s (placed checks size decode mains node f h b i)
        ≡ ok (
          nexts_x4 f s b,
          placed checks size decode mains node f h (packets_x4 f s b) i,
          state_x4 f s b,
        )
  unfolding nexts_x4 packets_x4 state_x4
  maps_x4-placed s b i =
      let r₀ = f s b.b0 in
      let r₁ = f r₀.state b.b1 in
      let r₂ = f r₁.state b.b2 in
      rw
        (
          h.maps_x4 s (placed checks size decode mains node f h b i),
          h.moves s b.b0 i.b0,
          h.moves r₀.state b.b1 i.b1,
          h.moves r₁.state b.b2 i.b2,
          h.moves r₂.state b.b3 i.b3,
        )
        (ap
          (λ x.
            ok (nexts_x4 f s b, placed checks size decode mains node f h (packets_x4 f s b) i, x))
          (state_x4-placed s b i))

  abbrev values_x4 : X4 (FeatureNextNode N) → X4 (Packet D) → X4 ℕ
  values_x4 next b = record {
    b0 = value_of checks size decode mains node f next.b0 b.b0;
    b1 = value_of checks size decode mains node f next.b1 b.b1;
    b2 = value_of checks size decode mains node f next.b2 b.b2;
    b3 = value_of checks size decode mains node f next.b3 b.b3;
  }

  override_x4-own :
      (next : X4 (FeatureNextNode N)) (b : X4 (Packet D))
      → override_x4 node next (own_nexts checks size decode mains node f h b) ≡ values_x4 next b
  override_x4-own next b =
      rw
        (
          override-value checks size decode mains node f h next.b0 b.b0,
          override-value checks size decode mains node f h next.b1 b.b1,
          override-value checks size decode mains node f h next.b2 b.b2,
          override-value checks size decode mains node f h next.b3 b.b3,
        )
        refl

  stride_lem :
      (s : S) (b : X4 (Packet D))
      → AllConfigured checks size decode mains node f (list_x4 b)
      → IsUniform (list_x4 b)
      → (i : X4 ℕ) × (stride checks size decode mains node s b
          ≡ ok (
            values_x4 (nexts_x4 f s b) b,
            placed checks size decode mains node f h (packets_x4 f s b) i,
            state_x4 f s b,
          ))
  unfolding stride
  stride_lem s b c u =
      let (i, e) = stride_nexts_lem checks size decode mains node f h b c u in
      (
        i,
        rw (e, maps_x4-placed s b i)
            (ap
              (λ v.
                ok (
                  v,
                  placed checks size decode mains node f h (packets_x4 f s b) i,
                  state_x4 f s b,
                ))
              (override_x4-own (nexts_x4 f s b) b)),
      )

  strides_lem :
      (n : ℕ) (s : S) (ps : List (Packet D))
      → n * 4 ≤ length ps
      → AllConfigured checks size decode mains node f ps
      → IsUniform ps
      → (ps' : List (Packet D)) × (strides checks size decode mains node n s ps
          ≡ ok (
            values checks size decode mains node f s ps,
            ps',
            last checks size decode mains node f s ps,
          ))
        × (map unplaced ps' ≡ map unplaced (packets checks size decode mains node f s ps))
  unfolding strides values packets last nexts_x4 packets_x4 state_x4
  strides_lem zero s ps room c u = rest_x4_lem checks size decode mains node f h s ps c
  strides_lem (suc n) s [] room c u = absurd (omega arith)
  strides_lem (suc n) s (p₀ ∷ []) room c u = absurd (omega arith)
  strides_lem (suc n) s (p₀ ∷ p₁ ∷ []) room c u = absurd (omega arith)
  strides_lem (suc n) s (p₀ ∷ p₁ ∷ p₂ ∷ []) room c u = absurd (omega arith)
  strides_lem (suc n) s (p₀ ∷ p₁ ∷ p₂ ∷ p₃ ∷ ps) room (c₀, (c₁, (c₂, (c₃, cs)))) (u, us) =
      let b : X4 (Packet D) = record { b0 = p₀; b1 = p₁; b2 = p₂; b3 = p₃ } in
      let (i, e) = stride_lem s b (c₀, (c₁, (c₂, (c₃, tt)))) (u, tt) in
      let (ps', e', same) = strides_lem n (state_x4 f s b) ps (omega arith) cs us in
      let r₀ = f s p₀ in
      let r₁ = f r₀.state p₁ in
      let r₂ = f r₁.state p₂ in
      let r₃ = f r₂.state p₃ in
      (
        list_x4 (placed checks size decode mains node f h (packets_x4 f s b) i) ++ ps',
        rw (prefetch_lem checks size decode mains node f h s ps, e, e') refl,
        rw
            (
              unplaced-moved_by checks size decode mains node f h r₀.next r₀.packet,
              unplaced-moved_by checks size decode mains node f h r₁.next r₁.packet,
              unplaced-moved_by checks size decode mains node f h r₂.next r₂.packet,
              unplaced-moved_by checks size decode mains node f h r₃.next r₃.packet,
              same,
            )
            refl,
      )

  pub each_x4_lem :
      (s : S) (ps : List (Packet D))
      → AllConfigured checks size decode mains node f ps
      → IsUniform ps
      → (ps' : List (Packet D)) × (each_x4 checks size decode mains node s ps
          ≡ ok (
            values checks size decode mains node f s ps,
            ps',
            last checks size decode mains node f s ps,
          ))
        × (map unplaced ps' ≡ map unplaced (packets checks size decode mains node f s ps))
  unfolding each_x4
  each_x4_lem s ps c u = strides_lem (length ps / 4) s ps (omega arith) c u

  -- Y
  pub each_x4-each_x1 :
      (s : S) (ps : List (Packet D))
      → AllConfigured checks size decode mains node f ps
      → IsUniform ps
      → (nexts : List ℕ) × (s' : S) × (one : List (Packet D)) × (four : List (Packet D)) × (each_x1
            checks size decode mains node s ps
          ≡ ok (nexts, one, s'))
        × (each_x4 checks size decode mains node s ps ≡ ok (nexts, four, s'))
        × (map unplaced four ≡ map unplaced one)
  each_x4-each_x1 s ps c u =
      let (four, e, same) = each_x4_lem s ps c u in
      (_, _, _, four, each_x1_lem checks size decode mains node f h s ps c, e, same)
