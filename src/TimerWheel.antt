-- ===== src/TimerWheel.antt =====
-- vpp-plugin/src/vppinfra/tw_timer.rs: timer wheels of several levels over the crate slab.
pub mod Slab
pub mod Cells
pub mod Entries
pub mod Wheel
pub mod Timers
pub mod Links
pub mod Frames
pub mod Unlinks
pub mod Store
pub mod Placement
pub mod Expiry
pub mod Starting
pub mod Processing
pub mod Levels
pub mod Ticking
pub mod Handles
pub mod Setup
pub mod Search
pub mod Least
pub mod FirstSlot
pub mod Earliest
mod Tests
