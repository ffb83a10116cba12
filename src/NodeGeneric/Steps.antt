-- ===== src/NodeGeneric/Steps.antt =====
-- A node of vlib/node_generic.rs that looks at everything in a buffer but its place in the
-- configuration, and what becomes of the buffers of a frame one by one.
use vpp_plugin_rs.Prelude.{ℕ, ◌+◌, ◌%◌, ◌≡◌, refl, Bool, List, [], ◌∷◌}
use vpp_plugin_rs.Outcome.{ok, u16_mod}
use vpp_plugin_rs.VnetBuffer.{Packet, arc_of, at_config, config_words}
use vpp_plugin_rs.VnetBuffer.Config.{
  heap_of, next_index, advanced, IsConfigured, vnet_feature_next_lem,
}
use vpp_plugin_rs.NodeGeneric.{
  GenericFeatureNode, FeatureNextNode, next_feature, defined_node, X4, feature_next,
}

pub record Mapped (S P N : Type 0) : Type 0 where
  pub next : FeatureNextNode N
  pub packet : P
  pub state : S

module _ {S D N : Type 0} (f : S → Packet D → Mapped S (Packet D) N) where
  -- Four buffers, one after the other.
  unfoldable pub nexts_x4 : S → X4 (Packet D) → X4 (FeatureNextNode N)
  nexts_x4 s b =
      let r₀ = f s b.b0 in
      let r₁ = f r₀.state b.b1 in
      let r₂ = f r₁.state b.b2 in
      let r₃ = f r₂.state b.b3 in record { b0 = r₀.next; b1 = r₁.next; b2 = r₂.next; b3 = r₃.next }

  unfoldable pub packets_x4 : S → X4 (Packet D) → X4 (Packet D)
  packets_x4 s b =
      let r₀ = f s b.b0 in
      let r₁ = f r₀.state b.b1 in
      let r₂ = f r₁.state b.b2 in
      let r₃ = f r₂.state b.b3 in
      record { b0 = r₀.packet; b1 = r₁.packet; b2 = r₂.packet; b3 = r₃.packet }

  unfoldable pub state_x4 : S → X4 (Packet D) → S
  state_x4 s b =
      let r₀ = f s b.b0 in
      let r₁ = f r₀.state b.b1 in let r₂ = f r₁.state b.b2 in (f r₂.state b.b3).state

  -- The node runs `f`, four times in order where it is given four buffers; it keeps the place in the
  -- configuration and goes by nothing of it.
  pub record IsBlind (node : GenericFeatureNode S (Packet D) N) : Type 0 where
    pub maps :
        (s : S) (p : Packet D)
        → node.map_buffer_to_next s p ≡ ok ((f s p).next, (f s p).packet, (f s p).state)
    pub keeps_arc : (s : S) (p : Packet D) → arc_of (f s p).packet ≡ arc_of p
    pub keeps_config :
        (s : S) (p : Packet D) → (f s p).packet.current_config_index ≡ p.current_config_index
    pub moves :
        (s : S) (p : Packet D) (i : ℕ)
        → f s (at_config p i) ≡ record (f s p) { packet = at_config (f s p).packet i }
    pub maps_x4 :
        (s : S) (b : X4 (Packet D))
        → node.map_buffer_to_next_x4 s b ≡ ok (nexts_x4 s b, packets_x4 s b, state_x4 s b)
    pub prefetches : (s : S) (b : X4 (Packet D)) → node.prefetch_buffer_x4 s b ≡ ok (b, s)
    pub traces_kept : (s : S) (p : Packet D) → node.trace_buffer s p ≡ ok (p, s)

module _ {F S D N : Type 0} (checks : Bool) (size : ℕ) (decode : List ℕ → F) (mains : List (List ℕ))
    (node : GenericFeatureNode S (Packet D) N) (f : S → Packet D → Mapped S (Packet D) N) where
  -- The next of one buffer, where `q` is asked for the next feature.
  abbrev pub value_of : FeatureNextNode N → Packet D → ℕ
  value_of next_feature q = next_index size decode mains q % u16_mod
  value_of (defined_node next) q = node.into_u16 next

  abbrev pub moved_by : FeatureNextNode N → Packet D → Packet D
  moved_by next_feature q = advanced size decode mains q
  moved_by (defined_node next) q = q

  unfoldable pub values : S → List (Packet D) → List ℕ
  values s [] = []
  values s (p ∷ ps) = value_of (f s p).next p ∷ values (f s p).state ps

  unfoldable pub packets : S → List (Packet D) → List (Packet D)
  packets s [] = []
  packets s (p ∷ ps) = moved_by (f s p).next (f s p).packet ∷ packets (f s p).state ps

  unfoldable pub last : S → List (Packet D) → S
  last s [] = s
  last s (p ∷ ps) = last (f s p).state ps

  abbrev pub AllConfigured : List (Packet D) → Type 0
  AllConfigured [] = Unit {0}
  AllConfigured (p ∷ ps) = IsConfigured size decode mains p × AllConfigured ps

  IsConfigured-same :
      (p q : Packet D)
      → IsConfigured size decode mains p
      → arc_of q ≡ arc_of p
      → q.current_config_index ≡ p.current_config_index
      → IsConfigured size decode mains q
  unfolding heap_of
  IsConfigured-same p q h arc config = rw (arc, config) h

  pub next_index-same :
      (p q : Packet D)
      → arc_of q ≡ arc_of p
      → q.current_config_index ≡ p.current_config_index
      → next_index size decode mains q ≡ next_index size decode mains p
  unfolding next_index heap_of
  next_index-same p q arc config = rw (arc, config) refl

  -- The next feature of a buffer at the place of another.
  pub feature_next_lem :
      (p q : Packet D)
      → IsConfigured size decode mains p
      → arc_of q ≡ arc_of p
      → q.current_config_index ≡ p.current_config_index
      → feature_next checks size decode mains node q
        ≡ ok (next_index size decode mains p % u16_mod, advanced size decode mains q)
  unfolding feature_next
  feature_next_lem p q h arc config =
      rw
        (
          vnet_feature_next_lem size decode mains checks q (IsConfigured-same p q h arc config),
          next_index-same p q arc config,
        )
        refl

  pub f-advanced :
      IsBlind f node
      → (s : S) (p : Packet D)
      → f s (advanced size decode mains p)
        ≡ record (f s p) { packet = advanced size decode mains (f s p).packet }
  unfolding advanced
  f-advanced h s p =
      rw (h.moves s p (p.current_config_index + config_words size + 1), h.keeps_config s p) refl
