-- ===== src/Lib.antt =====
-- vpp-plugin-rs: Rust bindings with which plugins of VPP, the packet processor, are written.
-- This library models the parts of the crates vpp-plugin and vpp-plugin-api-gen that carry
-- logic of their own, and leaves the C code that they call as parameters.
--
-- Parts and files. VppVec models vpp-plugin/src/vppinfra/vec.rs: Raw is the memory behind a
-- vector and the pointer accesses (VecRef is vec_header_t with its slots, Vec the owning
-- pointer), Slice the methods of VecRef, Owned those of Vec, Collect the loops (extend,
-- extend_with, from_iter, to_vpp_vec, clone), IntoIter and the drops. Spec says what the
-- operations promise on lists; Valid, SliceLaws, SpecLaws and Reserve prepare the theorems,
-- which stand in Growing, Shrinking, CollectLaws, Cloning, IterLaws and Script. The functions
-- of VPP that allocate are a parameter (Owned.Allocator), with what the code relies on in
-- Owned.IsVppAllocator.
--
-- BarrierLock models vpp-plugin/src/vlib/main/sync.rs: the lock and the guards with their
-- drops. System is the process around one lock, as a step relation of the main thread and its
-- workers; VPP's barrier is in the premises of the steps. Exclusion has the invariant.
--
-- Buffer models get_buffers of vpp-plugin/src/vlib/buffer.rs: Vector the lanes u64x8, Lookup
-- the function itself, VectorLaws and LookupLaws the lemmas, Pointers the theorems. The
-- ArrayVec of the crate arrayvec is a parameter (Lookup.ArrayVec, Lookup.IsArrayVec). Metadata
-- models the methods that read and move the offsets, lengths and flags of a buffer, with the
-- theorems in Advance; pointers into a buffer are offsets from its data, and Prelude.Int has
-- the signed 16-bit integers.
--
-- ApiGen models vpp-plugin-api-gen/src/parser.rs behind the grammar: Syntax the statements and
-- the state of ApiParser, Crc the texts under the checksums, Messages the messages and
-- generated replies, Table the types and Field::vla, Statements process_statements and
-- validate_vla, Imports ApiParser::new and do_imports, Services process. ServiceLaws, VlaTypes
-- and VlaLaws, ImportLaws, EnumLaws and Ranked, with VlaDepth before it, hold the theorems.
-- The CRC-32 of the crate crc32fast (Crc.Crc), the parsing of a file and the order in which a
-- hash map gives its entries are parameters.
--
-- NumUnaligned models the macro of vpp-plugin/src/vlibapi/num_unaligned.rs, its type a number
-- of bytes and the target's byte order a parameter: Bytes has the lemmas on the bytes of a
-- word, RoundTrip the theorems. ApiStrings models the two strings of
-- vpp-plugin/src/vlibapi/mod.rs on their bytes: Fixed is ApiFixedString, Counted ApiString,
-- Laws the theorems.
--
-- TimerWheel models vpp-plugin/src/vppinfra/tw_timer.rs at any number of levels and slots.
-- Slab is the crate slab's Slab, a parameter with its documented laws; Entries the entries and
-- the setting of their links, Wheel the levels and the choice of a slot, Timers the
-- operations. Links says what holds of the doubly linked lists and what linking does to them,
-- Frames and Unlinks the same for the other changes, Store that the code makes these changes,
-- Setup init, Search next_expiration with Least, FirstSlot and Earliest on what it finds,
-- Placement that the slot chosen exists. Expiry has the invariant of a wheel and what it means
-- that timers expire; Starting, Processing, Levels and Ticking follow the code from one timer
-- to many ticks, and Handles has the theorems on starting and stopping.
--
-- Counter models the counters of vpp-plugin/src/vlib/counter.rs, with VPP's functions on them
-- as parameters: Counter.Sums has the theorem on simple ones, Combined the counters of packets
-- and bytes, and Combined.CombinedSums how they go by the simple ones.
--
-- Channel models vpp-plugin/src/vlib/process_node/mpsc.rs. The queue inside is the standard
-- library's; the AtomicWaker of the crate futures is a parameter (Channel.AtomicWaker,
-- Channel.IsAtomicWaker). Order mixes the calls of both sides; Wakeups has a task and its
-- senders as steps, where a send is its push and then its wake and a poll its look at the
-- queue and then the registration.
--
-- VnetBuffer models vpp-plugin/src/vnet/buffer.rs: the opaque part of a buffer,
-- vnet_get_config_data and vnet_feature_next; Interfaces and Config have what holds of them.
-- NodeGeneric models vpp-plugin/src/vlib/node_generic.rs: the loops over single buffers and
-- over strides of four, and Frame the whole functions, with get_buffers of Buffer and FrameRef
-- of vpp-plugin/src/vlib/node.rs. The methods of a node are a parameter; Steps says what the
-- theorems ask of them. One and Four follow the two loops, Strides compares them, Stale has
-- the fast way through a stride, Dispatch the theorem on whole frames.
--
-- TaskTimers models vpp-plugin/src/vlib/process_node/tw_timer.rs over TimerWheel. Valid has
-- the invariant that states and wheel tell the same, Marks the loop that makes timers ready,
-- Changes one timer more or less, Laws, Stopping and Next the theorems.
--
-- Outcome is what a run of the runtime crate ends in: a value, a panic, or a fault, which
-- stands for undefined behaviour. Its `checks` says whether overflow checks and debug
-- assertions are compiled in. Prelude has the shared names and the lemmas on lists.
--
-- Bounds and fuel. Words are natural numbers with their wrap-around written out. The loop over
-- 64 indices runs on as much fuel as there are indices, which is enough for get_buffers to
-- return. Field::vla runs on one unit of fuel for each type in the table and one more, which
-- is enough, and do_imports on the depth to which imports may nest; where they lack fuel they
-- end in `too_deep`, the overflow of the stack. The lists of a timer wheel run on fuel and end
-- in a fault without it; they are finite, so that some fuel is enough.
--
-- Not modelled: the generated bindings, the C code of VPP, the macros, the code generator and
-- the JSON writer for API files, the registration of nodes and features, the executor of
-- process nodes and the messages of the API.
pub mod Prelude
pub mod Outcome
pub mod VppVec
pub mod BarrierLock
pub mod Buffer
pub mod ApiGen
pub mod NumUnaligned
pub mod ApiStrings
pub mod TimerWheel
pub mod Counter
pub mod Channel
pub mod VnetBuffer
pub mod NodeGeneric
pub mod TaskTimers
