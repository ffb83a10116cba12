-- ===== src/NodeGeneric/Stale.antt =====
-- What the fast way through a stride in vlib/node_generic.rs does to the second to fourth buffer.
use vpp_plugin_rs.NodeGeneric.{
  GenericFeatureNode, FeatureNextNode, next_feature, X4, list_x4, each_x1, each_x4, same_arc,
  stride, prefetch, rest_x4, strides,
}
use vpp_plugin_rs.VnetBuffer.{Packet}
use vpp_plugin_rs.Prelude.{ℕ, ◌≡◌, refl, ap, Bool, true, List, [], ◌∷◌, map}
use vpp_plugin_rs.Outcome.{ok}
use vpp_plugin_rs.VnetBuffer.Config.{IsConfigured, advanced}
use vpp_plugin_rs.NodeGeneric.Steps.{
  Mapped, IsBlind, nexts_x4, packets_x4, state_x4, values, packets, last, AllConfigured,
}
use vpp_plugin_rs.NodeGeneric.One.{each_x1_lem}
use vpp_plugin_rs.NodeGeneric.Four.{alike_stride_lem, placed, own_next, after}
use vpp_plugin_rs.NodeGeneric.Strides.{maps_x4-placed}

module _ {F S D N : Type 0} (checks : Bool) (size : ℕ) (decode : List ℕ → F) (mains : List (List ℕ))
    (node : GenericFeatureNode S (Packet D) N) (f : S → Packet D → Mapped S (Packet D) N)
    (h : IsBlind f node) where
  abbrev next_of : Packet D → ℕ
  next_of p = own_next checks size decode mains node f h p

  abbrev place_after : Packet D → ℕ
  place_after p = after checks size decode mains node f h p

  abbrev place_of : Packet D → ℕ
  place_of p = p.current_config_index

  abbrev all_next : X4 (FeatureNextNode N)
  all_next = record { b0 = next_feature; b1 = next_feature; b2 = next_feature; b3 = next_feature }

  values-all_next :
      (s : S) (b : X4 (Packet D))
      → nexts_x4 f s b ≡ all_next
      → values checks size decode mains node f s (list_x4 b) ≡ map next_of (list_x4 b)
  unfolding values nexts_x4
  values-all_next s b e =
      rw (ap (λ x. x.b0) e, ap (λ x. x.b1) e, ap (λ x. x.b2) e, ap (λ x. x.b3) e) refl

  packets-all_next :
      (s : S) (b : X4 (Packet D))
      → nexts_x4 f s b ≡ all_next
      → map place_of (packets checks size decode mains node f s (list_x4 b))
        ≡ map place_after (list_x4 b)
  unfolding packets nexts_x4 advanced
  packets-all_next s b e =
      let r₀ = f s b.b0 in
      let r₁ = f r₀.state b.b1 in
      let r₂ = f r₁.state b.b2 in
      rw
        (
          ap (λ x. x.b0) e,
          ap (λ x. x.b1) e,
          ap (λ x. x.b2) e,
          ap (λ x. x.b3) e,
          h.keeps_config s b.b0,
          h.keeps_config r₀.state b.b1,
          h.keeps_config r₁.state b.b2,
          h.keeps_config r₂.state b.b3,
        )
        refl

  -- The buffers that the node gives back, of which only the first has moved on.
  abbrev stale : S → X4 (Packet D) → X4 (Packet D)
  stale s b =
      placed checks size decode mains node f h (packets_x4 f s b) (record {
        b0 = place_after b.b0;
        b1 = place_of b.b1;
        b2 = place_of b.b2;
        b3 = place_of b.b3;
      })

  stride-same_arc :
      (s : S) (b : X4 (Packet D))
      → IsConfigured size decode mains b.b0
      → same_arc b ≡ true
      → nexts_x4 f s b ≡ all_next
      → stride checks size decode mains node s b
        ≡ ok (
          record { b0 = next_of b.b0; b1 = next_of b.b0; b2 = next_of b.b0; b3 = next_of b.b0 },
          stale s b,
          state_x4 f s b,
        )
  unfolding stride
  stride-same_arc s b c arcs e =
      rw
        (
          alike_stride_lem checks size decode mains node f h b c arcs,
          maps_x4-placed checks size decode mains node f h s b _,
          e,
        )
        refl

  -- On a stride of four configured buffers of one arc for which the node always asks for the next
  -- feature, the loop over single buffers gives each its own next and moves each on in the
  -- configuration; the loop over strides gives all four the next of the first, and leaves the
  -- places of the other three as they were. The node goes by nothing of the place of a buffer in
  -- the configuration and keeps it and the arc, its methods succeed, and it runs its method for
  -- one buffer four times where it is given four.
  pub each_x4-same_arc :
      (s : S) (b : X4 (Packet D))
      → AllConfigured checks size decode mains node f (list_x4 b)
      → same_arc b ≡ true
      → nexts_x4 f s b ≡ all_next
      → (one : List (Packet D)) × (four : List (Packet D)) × (s₁ : S) × (s₂ : S) × (each_x1 checks
            size decode mains node s
            (list_x4 b)
          ≡ ok (map next_of (list_x4 b), one, s₁))
        × (each_x4 checks size decode mains node s (list_x4 b)
            ≡ ok (map next_of (b.b0 ∷ b.b0 ∷ b.b0 ∷ b.b0 ∷ []), four, s₂))
        × (map place_of one ≡ map place_after (list_x4 b))
        × (map place_of four ≡ place_after b.b0 ∷ map place_of (b.b1 ∷ b.b2 ∷ b.b3 ∷ []))
  unfolding each_x4 strides prefetch rest_x4
  each_x4-same_arc s b (c, cs) arcs e = (
    packets checks size decode mains node f s (list_x4 b),
    list_x4 (stale s b),
    last checks size decode mains node f s (list_x4 b),
    state_x4 f s b,
    rw (each_x1_lem checks size decode mains node f h s (list_x4 b) (c, cs), values-all_next s b e)
        refl,
    rw (stride-same_arc s b c arcs e) refl,
    packets-all_next s b e,
    refl,
  )
