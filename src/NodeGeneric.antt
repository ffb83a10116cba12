-- ===== src/NodeGeneric.antt =====
-- vpp-plugin/src/vlib/node_generic.rs: the two loops with which a feature node sends the buffers of a
-- frame on. The methods of a node are a parameter, which may change the buffers and a state of its own;
-- a `&mut` reference to a buffer is the buffer given and given back.
pub mod Frame
pub mod Steps
pub mod One
pub mod Four
pub mod Strides
pub mod Stale
pub mod Dispatch
mod Tests
use vpp_plugin_rs.Buffer.Metadata.{contains}
use vpp_plugin_rs.Prelude.{
  ℕ, zero, suc, ◌+◌, ◌-◌, ◌*◌, ◌/◌, ◌%◌, ◌^◌, ◌<◌, ◌≤◌, ◌≡◌, ◌≢◌, refl, sym, ap, ◌∙◌, Bool, true,
  false, not, ◌&&◌, ◌||◌, Option, none, some, List, [], ◌∷◌, ◌++◌, map, length, take, drop,
  get_elem?, ◌⊎◌, inl, inr, ltb, leb, if◌then◌else◌, ◌==◌, arith,
}
use vpp_plugin_rs.Outcome.{Outcome, ok, panicked, fault, ◌>>=◌, ◌>>◌, u16_mod, u32_mod}
use vpp_plugin_rs.VnetBuffer.{Packet, arc_of, vnet_feature_next}

pub data FeatureNextNode (N : Type 0) : Type 0 where
  defined_node : N → FeatureNextNode N
  next_feature : FeatureNextNode N

unfoldable pub from : {N : Type 0} → N → FeatureNextNode N
from value = defined_node value

-- `[T; 4]`
pub record X4 (A : Type 0) : Type 0 where
  pub b0 : A
  pub b1 : A
  pub b2 : A
  pub b3 : A

-- The methods of `GenericFeatureNodeX1` and `GenericFeatureNodeX4`, `N::NextNodes::into_u16`, and
-- whether the flags of the runtime have `TRACE`.
pub record GenericFeatureNode (S P N : Type 0) : Type 0 where
  pub map_buffer_to_next : S → P → Outcome (FeatureNextNode N × P × S)
  pub prefetch_buffer_x4 : S → X4 P → Outcome (X4 P × S)
  pub map_buffer_to_next_x4 : S → X4 P → Outcome (X4 (FeatureNextNode N) × X4 P × S)
  pub trace_buffer : S → P → Outcome (P × S)
  pub into_u16 : N → ℕ
  pub traces : S → Bool

abbrev pub is_traced : ℕ
is_traced = 1

abbrev pub list_x4 : {A : Type 0} → X4 A → List A
list_x4 x = x.b0 ∷ x.b1 ∷ x.b2 ∷ x.b3 ∷ []

abbrev pub same_arc : {D : Type 0} → X4 (Packet D) → Bool
same_arc b = arc_of b.b0 == arc_of b.b1 && arc_of b.b0 == arc_of b.b2 && arc_of b.b0 == arc_of b.b3

module _ {S D N : Type 0} (node : GenericFeatureNode S (Packet D) N) where
  abbrev pub override : FeatureNextNode N → ℕ → ℕ
  override next_feature value = value
  override (defined_node next) value = node.into_u16 next

  abbrev pub override_x4 : X4 (FeatureNextNode N) → X4 ℕ → X4 ℕ
  override_x4 next v = record {
    b0 = override next.b0 v.b0;
    b1 = override next.b1 v.b1;
    b2 = override next.b2 v.b2;
    b3 = override next.b3 v.b3;
  }

  unfoldable pub trace_all : S → List (Packet D) → Outcome (List (Packet D) × S)
  trace_all s [] = ok ([], s)
  trace_all s (p ∷ ps) = do
    (p', s₁) ← if contains p.flags is_traced then node.trace_buffer s p else ok (p, s)
    (ps', s₂) ← trace_all s₁ ps
    ok (p' ∷ ps', s₂)

  unfoldable pub trace_if : Bool → S → List (Packet D) → Outcome (List (Packet D) × S)
  trace_if b s ps = if b then trace_all s ps else ok (ps, s)

module _ {F S D N : Type 0} (checks : Bool) (size : ℕ) (decode : List ℕ → F) (mains : List (List ℕ))
    (node : GenericFeatureNode S (Packet D) N) where
  -- `b0.vnet_feature_next().0 as u16`
  unfoldable pub feature_next : Packet D → Outcome (ℕ × Packet D)
  feature_next p = do
    ((next, found), p') ← vnet_feature_next checks size decode mains p
    ok (next % u16_mod, p')

  abbrev pub next_x1 : FeatureNextNode N → Packet D → Outcome (ℕ × Packet D)
  next_x1 next_feature p = feature_next p
  next_x1 (defined_node next) p = ok (node.into_u16 next, p)

  -- The loop of `generic_feature_node_x1`.
  unfoldable pub each_x1 : S → List (Packet D) → Outcome (List ℕ × List (Packet D) × S)
  each_x1 s [] = ok ([], [], s)
  each_x1 s (p ∷ ps) = do
    (next, p₁, s₁) ← node.map_buffer_to_next s p
    (value, p₂) ← next_x1 next p₁
    (values, ps', s₂) ← each_x1 s₁ ps
    ok (value ∷ values, p₂ ∷ ps', s₂)

  -- The nexts that are written before the node is asked.
  unfoldable pub stride_nexts : X4 (Packet D) → Outcome (X4 ℕ × X4 (Packet D))
  stride_nexts b =
      if same_arc b
      then (do
        (n, p₀) ← feature_next b.b0
        ok (record { b0 = n; b1 = n; b2 = n; b3 = n }, record b { b0 = p₀ }))
      else (do
        (n₀, p₀) ← feature_next b.b0
        (n₁, p₁) ← feature_next b.b1
        (n₂, p₂) ← feature_next b.b2
        (n₃, p₃) ← feature_next b.b3
        ok (
          record { b0 = n₀; b1 = n₁; b2 = n₂; b3 = n₃ },
          record { b0 = p₀; b1 = p₁; b2 = p₂; b3 = p₃ },
        ))

  unfoldable pub stride : S → X4 (Packet D) → Outcome (X4 ℕ × X4 (Packet D) × S)
  stride s b = do
    (values, b₁) ← stride_nexts b
    (next, b₂, s') ← node.map_buffer_to_next_x4 s b₁
    ok (override_x4 node next values, b₂, s')

  -- The four buffers of the following stride, where there are as many.
  unfoldable pub prefetch : S → List (Packet D) → Outcome (List (Packet D) × S)
  prefetch s (a ∷ b ∷ c ∷ d ∷ ps) = do
    (x, s') ← node.prefetch_buffer_x4 s (record { b0 = a; b1 = b; b2 = c; b3 = d })
    ok (list_x4 x ++ ps, s')
  prefetch s ps = ok (ps, s)

  -- The loop over what is left behind the last stride.
  unfoldable pub rest_x4 : S → List (Packet D) → Outcome (List ℕ × List (Packet D) × S)
  rest_x4 s [] = ok ([], [], s)
  rest_x4 s (p ∷ ps) = do
    (value, p₁) ← feature_next p
    (next, p₂, s₁) ← node.map_buffer_to_next s p₁
    (values, ps', s₂) ← rest_x4 s₁ ps
    ok (override node next value ∷ values, p₂ ∷ ps', s₂)

  -- `n` strides and then the rest; a list with fewer than four elements is not strided over.
  unfoldable pub strides : ℕ → S → List (Packet D) → Outcome (List ℕ × List (Packet D) × S)
  strides zero s ps = rest_x4 s ps
  strides (suc n) s (a ∷ b ∷ c ∷ d ∷ ps) = do
    (ps₁, s₁) ← prefetch s ps
    (v, x, s₂) ← stride s₁ (record { b0 = a; b1 = b; b2 = c; b3 = d })
    (values, ps₂, s₃) ← strides n s₂ ps₁
    ok (list_x4 v ++ values, list_x4 x ++ ps₂, s₃)
  strides (suc n) s ps = fault

  unfoldable pub each_x4 : S → List (Packet D) → Outcome (List ℕ × List (Packet D) × S)
  each_x4 s ps = strides (length ps / 4) s ps
