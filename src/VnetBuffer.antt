-- ===== src/VnetBuffer.antt =====
-- vpp-plugin/src/vnet/buffer.rs: what the network stack keeps in a buffer. `vnet_feature_next` finds the
-- node of the next feature of an arc, and the data of this feature, in the words of `config_string_heap`.
pub mod Interfaces
pub mod Config
use vpp_plugin_rs.Outcome.{add_word, Outcome, ok, panicked, fault, ◌>>=◌, ◌>>◌, u16_mod, u32_mod}
use vpp_plugin_rs.Prelude.{
  ℕ, zero, suc, ◌+◌, ◌-◌, ◌*◌, ◌/◌, ◌%◌, ◌^◌, ◌<◌, ◌≤◌, ◌≡◌, ◌≢◌, refl, sym, ap, ◌∙◌, Bool, true,
  false, not, ◌&&◌, ◌||◌, Option, none, some, List, [], ◌∷◌, ◌++◌, map, length, take, drop,
  get_elem?, ◌⊎◌, inl, inr, ltb, leb, if◌then◌else◌, ◌==◌, arith,
}

pub data Direction : Type 0 where
  vlib_rx : Direction
  vlib_tx : Direction

-- `vnet_buffer_opaque_t`, with the slots of its array `sw_if_index`.
pub record VnetBuffer : Type 0 where
  pub feature_arc_index : ℕ
  pub sw_if_index : Direction → ℕ

abbrev pub write_at : Direction → ℕ → (Direction → ℕ) → Direction → ℕ
write_at vlib_rx x old vlib_rx = x
write_at vlib_rx x old vlib_tx = old vlib_tx
write_at vlib_tx x old vlib_rx = old vlib_rx
write_at vlib_tx x old vlib_tx = x

unfoldable pub rx_sw_if_index : VnetBuffer → ℕ
rx_sw_if_index b = b.sw_if_index vlib_rx

-- The source writes the slot `VLIB_TX`.
unfoldable pub set_rx_sw_if_index : VnetBuffer → ℕ → VnetBuffer
set_rx_sw_if_index b x = record b { sw_if_index = write_at vlib_tx x b.sw_if_index }

unfoldable pub tx_sw_if_index : VnetBuffer → Option ℕ
tx_sw_if_index b =
    let sw_if_index = b.sw_if_index vlib_tx in
    if sw_if_index == u32_mod - 1 then none else some sw_if_index

abbrev pub unwrap_or {ℓ} : {A : Type ℓ} → Option A → A → A
unwrap_or none d = d
unwrap_or (some x) d = x

unfoldable pub set_tx_sw_if_index : VnetBuffer → Option ℕ → VnetBuffer
set_tx_sw_if_index b x = record b {
  sw_if_index = write_at vlib_tx (unwrap_or x (u32_mod - 1)) b.sw_if_index;
}

-- A buffer: the opaque part, the position in the configuration of the arc, and the rest of it.
pub record Packet (D : Type 0) : Type 0 where
  pub vnet : VnetBuffer
  pub current_config_index : ℕ
  pub flags : ℕ
  pub contents : D

abbrev pub arc_of : {D : Type 0} → Packet D → ℕ
arc_of p = p.vnet.feature_arc_index

abbrev pub at_config : {D : Type 0} → Packet D → ℕ → Packet D
at_config p i = record p { current_config_index = i }

-- A read behind the end of a heap is undefined behaviour.
abbrev pub or_fault {ℓ} : {A : Type ℓ} → Option A → Outcome A
or_fault none = fault
or_fault (some a) = ok a

-- `size_of::<FeatureData>()` in words of four bytes.
unfoldable pub config_words : ℕ → ℕ
config_words size = (size + 3) / 4

-- `size` is that of `FeatureData`, whose value `decode` reads from its words; `mains` are the heaps of
-- `feature_main.feature_config_mains`.
module _ {F : Type 0} (checks : Bool) (size : ℕ) (decode : List ℕ → F) where
  unfoldable pub vnet_get_config_data : List ℕ → ℕ → Outcome ((ℕ × F) × ℕ)
  vnet_get_config_data heap index = do
    next ← or_fault (get_elem? heap (index + config_words size))
    after ← add_word checks u32_mod index (config_words size)
    config_index ← add_word checks u32_mod after 1
    ok ((next, decode (take (config_words size) (drop index heap))), config_index)

  unfoldable pub vnet_feature_next :
      {D : Type 0} → List (List ℕ) → Packet D → Outcome ((ℕ × F) × Packet D)
  vnet_feature_next mains p = do
    cm ← or_fault (get_elem? mains (arc_of p))
    (found, config_index) ← vnet_get_config_data cm p.current_config_index
    ok (found, at_config p config_index)
