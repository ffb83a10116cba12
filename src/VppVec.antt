-- ===== src/VppVec.antt =====
-- vpp-plugin/src/vppinfra/vec.rs: VPP's resizable arrays.
--
-- `VecRef` is the memory behind a user pointer that is not null: the two header fields that the
-- code uses, and the element slots of the allocation, `none` for a slot that was never written.
-- `Vec` is the owning pointer, `none` for the null pointer. `Raw` holds the pointer accesses,
-- `Slice` the operations of `VecRef`, `Owned` those of `Vec`, `Collect` the loops over iterators.
pub mod Raw
pub mod Slice
pub mod Owned
pub mod Collect
pub mod Spec
pub mod Valid
pub mod SliceLaws
pub mod SpecLaws
pub mod Reserve
pub mod Growing
pub mod Shrinking
pub mod CollectLaws
pub mod Cloning
pub mod IterLaws
pub mod Script
mod Tests
