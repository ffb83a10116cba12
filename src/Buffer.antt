-- ===== src/Buffer.antt =====
-- vpp-plugin/src/vlib/buffer.rs: packet buffers. `Vector` has the lanes `u64x8`, `Lookup` the
-- conversion of buffer indices to pointers in `get_buffers`.
pub mod Vector
pub mod Lookup
pub mod VectorLaws
pub mod LookupLaws
pub mod Pointers
pub mod Metadata
pub mod Advance
mod Tests
