-- ===== src/NodeGeneric/One.antt =====
-- The loop over single buffers in vlib/node_generic.rs.
use vpp_plugin_rs.NodeGeneric.{
  FeatureNextNode, GenericFeatureNode, next_feature, defined_node, each_x1, next_x1,
}
use vpp_plugin_rs.Prelude.{ℕ, ◌≡◌, refl, Bool, List, [], ◌∷◌}
use vpp_plugin_rs.Outcome.{ok}
use vpp_plugin_rs.VnetBuffer.{Packet, arc_of}
use vpp_plugin_rs.VnetBuffer.Config.{IsConfigured}
use vpp_plugin_rs.NodeGeneric.Steps.{
  Mapped, IsBlind, value_of, moved_by, values, packets, last, AllConfigured, feature_next_lem,
}

module _ {F S D N : Type 0} (checks : Bool) (size : ℕ) (decode : List ℕ → F) (mains : List (List ℕ))
    (node : GenericFeatureNode S (Packet D) N) (f : S → Packet D → Mapped S (Packet D) N)
    (h : IsBlind f node) where
  next_x1_lem :
      (next : FeatureNextNode N) (p q : Packet D)
      → IsConfigured size decode mains p
      → arc_of q ≡ arc_of p
      → q.current_config_index ≡ p.current_config_index
      → next_x1 checks size decode mains node next q
        ≡ ok (
          value_of checks size decode mains node f next p,
          moved_by checks size decode mains node f next q,
        )
  next_x1_lem next_feature p q c arc config =
      feature_next_lem checks size decode mains node f p q c arc config
  next_x1_lem (defined_node n) p q c arc config = refl

  -- The loop over single buffers succeeds on configured buffers: every buffer gets the next that
  -- the node defines, or the next index behind its feature data and a place behind that, in order,
  -- with the state of the node passed along. The node goes by nothing of the place of a buffer in
  -- the configuration and keeps it and the arc, its methods succeed, and it runs its method for
  -- one buffer four times where it is given four.
  pub each_x1_lem :
      (s : S) (ps : List (Packet D))
      → AllConfigured checks size decode mains node f ps
      → each_x1 checks size decode mains node s ps
        ≡ ok (
          values checks size decode mains node f s ps,
          packets checks size decode mains node f s ps,
          last checks size decode mains node f s ps,
        )
  unfolding each_x1 values packets last
  each_x1_lem s [] c = refl
  each_x1_lem s (p ∷ ps) (c, cs) =
      let r = f s p in
      rw
        (
          h.maps s p,
          next_x1_lem r.next p r.packet c (h.keeps_arc s p) (h.keeps_config s p),
          each_x1_lem r.state ps cs,
        )
        refl
