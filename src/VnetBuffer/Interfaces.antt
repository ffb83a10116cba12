-- ===== src/VnetBuffer/Interfaces.antt =====
-- The getters and setters of the interfaces of a buffer in vnet/buffer.rs.
use vpp_plugin_rs.Prelude.{ℕ, ◌-◌, ◌<◌, ◌≡◌, refl, none, some, arith}
use vpp_plugin_rs.Outcome.{u32_mod}
use vpp_plugin_rs.VnetBuffer.{
  u32_mod, VnetBuffer, rx_sw_if_index, set_rx_sw_if_index, tx_sw_if_index, set_tx_sw_if_index,
}

-- For an index below u32::MAX tx_sw_if_index gives what set_tx_sw_if_index has set, none included,
-- and rx_sw_if_index stays; set_rx_sw_if_index sets what tx_sw_if_index gives and leaves what
-- rx_sw_if_index gives.
pub set_sw_if_index_lem :
    (b : VnetBuffer) (x : ℕ)
    → x < u32_mod - 1
    → (tx_sw_if_index (set_tx_sw_if_index b (some x)) ≡ some x)
      × (tx_sw_if_index (set_tx_sw_if_index b none) ≡ none)
      × (rx_sw_if_index (set_tx_sw_if_index b (some x)) ≡ rx_sw_if_index b)
      × (rx_sw_if_index (set_tx_sw_if_index b none) ≡ rx_sw_if_index b)
      × (tx_sw_if_index (set_rx_sw_if_index b x) ≡ some x)
      × (rx_sw_if_index (set_rx_sw_if_index b x) ≡ rx_sw_if_index b)
unfolding tx_sw_if_index set_tx_sw_if_index rx_sw_if_index set_rx_sw_if_index
set_sw_if_index_lem b x small = (ground arith, refl, refl, refl, ground arith, refl)
