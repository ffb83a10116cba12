-- ===== src/NodeGeneric/Dispatch.antt =====
-- A frame through the two functions of vlib/node_generic.rs, with `get_buffers` of vlib/buffer.rs.
use vpp_plugin_rs.NodeGeneric.Strides.{each_x4_lem}
use native.Mathlib.Nat.{mod-eq_of_lt}
use vpp_plugin_rs.Outcome.Laws.{debug_assert-true}
use vpp_plugin_rs.NodeGeneric.{is_traced, contains, GenericFeatureNode, trace_all, trace_if}
use vpp_plugin_rs.Prelude.{
  eq→==, length-map, Bool-cases, length-take, ℕ, suc, ◌+◌, ◌*◌, ◌/◌, ◌^◌, ◌≤◌, ◌≡◌, refl, ap, Bool,
  true, false, some, List, [], ◌∷◌, map, length, take, inl, inr, arith,
}
use vpp_plugin_rs.Outcome.{usize_mod, ok, u16_mod, u32_mod}
use vpp_plugin_rs.Prelude.Bounded.{AllBelow}
use vpp_plugin_rs.Buffer.Lookup.{ArrayVec, IsArrayVec, BufferMain}
use vpp_plugin_rs.Buffer.VectorLaws.{address}
use vpp_plugin_rs.Buffer.Pointers.{get_buffers-aligned}
use vpp_plugin_rs.VnetBuffer.{Packet}
use vpp_plugin_rs.NodeGeneric.Frame.{
  FrameRef, vector, Dispatched, initialised, frame_size, frame_buffers, dispatch,
  buffer_enqueue_to_next, generic_feature_node_x1, generic_feature_node_x4,
}
use vpp_plugin_rs.NodeGeneric.Steps.{Mapped, IsBlind, values, packets, last, AllConfigured}
use vpp_plugin_rs.NodeGeneric.One.{each_x1_lem}
use vpp_plugin_rs.NodeGeneric.Four.{unplaced, IsUniform}

initialised-map : (xs : List ℕ) → initialised (map some xs) ≡ ok xs
initialised-map [] = refl
initialised-map (x ∷ xs) = rw (initialised-map xs) refl

module _ {S D N : Type 0} (node : GenericFeatureNode S (Packet D) N)
    (f : S → Packet D → Mapped S (Packet D) N) (h : IsBlind f node) where
  trace_all_lem : (s : S) (ps : List (Packet D)) → trace_all node s ps ≡ ok (ps, s)
  unfolding trace_all
  trace_all_lem s [] = refl
  trace_all_lem s (p ∷ ps) = elim (Bool-cases (contains p.flags is_traced)) [
    | inl traced ↦ rw (traced, h.traces_kept s p, trace_all_lem s ps) refl
    | inr plain ↦ rw (plain, trace_all_lem s ps) refl
  ]

  trace_if_lem : (b : Bool) (s : S) (ps : List (Packet D)) → trace_if node b s ps ≡ ok (ps, s)
  unfolding trace_if
  trace_if_lem true s ps = trace_all_lem s ps
  trace_if_lem false s ps = refl

module _ {F S D N : Type 0} (checks : Bool) (size : ℕ) (decode : List ℕ → F) (mains : List (List ℕ))
    (node : GenericFeatureNode S (Packet D) N) (f : S → Packet D → Mapped S (Packet D) N) where
  length-values :
      (s : S) (ps : List (Packet D))
      → length (values checks size decode mains node f s ps) ≡ length ps
  unfolding values
  length-values s [] = refl
  length-values s (p ∷ ps) = ap suc (length-values (f s p).state ps)

-- A frame of at most 256 buffers of the pool, an array with room for them, and memory that may be
-- read up to the next multiple of eight indices.
pub record IsFrame {V : Type 0} (m : BufferMain) (a : ArrayVec V) (empty : V) (f : FrameRef)
    : Type 0 where
  pub room : length (a.slots empty) ≡ frame_size
  pub within : f.n_vectors ≤ frame_size
  pub readable : (f.n_vectors + 7) / 8 * 8 ≤ length f.memory
  pub words : AllBelow u32_mod f.memory
  pub pool : AllBelow (m.buffer_mem_size / 64) (take f.n_vectors f.memory)
  pub fits : m.buffer_mem_start + 2 ^ 38 ≤ usize_mod

module _ {F S D N V : Type 0} (checks : Bool) (size : ℕ) (decode : List ℕ → F)
    (mains : List (List ℕ)) (node : GenericFeatureNode S (Packet D) N) (m : BufferMain)
    (a : ArrayVec V) (laws : IsArrayVec a) (empty : V) (buffer_at : ℕ → Packet D)
    (f : S → Packet D → Mapped S (Packet D) N) (h : IsBlind f node) (frame : FrameRef)
    (i : IsFrame m a empty frame) where
  unfoldable pub pointers_of : List ℕ
  pointers_of = map (address m.buffer_mem_start) (vector frame)

  abbrev pub buffers_of : List (Packet D)
  buffers_of = map buffer_at pointers_of

  frame_buffers_lem :
      frame_buffers checks size decode mains node m a empty buffer_at frame ≡ ok pointers_of
  unfolding frame_buffers vector pointers_of
  frame_buffers_lem =
      let (b, e, len, slots) =
        get_buffers-aligned checks m a laws frame_size frame.memory frame.n_vectors empty refl
          i.room i.within (omega arith) i.readable i.words i.pool i.fits in
      rw (e, len, slots) (initialised-map _)

  abbrev dispatched : S → List (Packet D) → S → Dispatched S (Packet D)
  dispatched s ps s' = record {
    enqueued = (vector frame, values checks size decode mains node f s buffers_of);
    pointers = pointers_of;
    buffers = ps;
    state = s';
    count = frame.n_vectors;
  }

  dispatch_lem :
      (s s' : S) (ps : List (Packet D))
      → dispatch checks size decode mains node m a empty buffer_at frame pointers_of
          (values checks size decode mains node f s buffers_of, ps, s')
        ≡ ok (dispatched s ps s')
  unfolding dispatch buffer_enqueue_to_next
  dispatch_lem s s' ps =
      let n = length (vector frame) in
      let e : n ≡ frame.n_vectors =
        unfold vector in omega (arith, length-take frame.n_vectors frame.memory, i.readable) in
      let l : length pointers_of ≡ n =
        unfold pointers_of in length-map (address m.buffer_mem_start) (vector frame) in
      rw
        (
          length-values checks size decode mains node f s buffers_of,
          length-map buffer_at pointers_of,
          l,
          eq→== n n refl,
          debug_assert-true checks,
          e,
          mod-eq_of_lt {n = frame.n_vectors} {m = u16_mod} (omega (arith, i.within)),
        )
        refl

  -- On a frame of at most 256 indices of buffers of the pool, every buffer configured,
  -- generic_feature_node_x1 and generic_feature_node_x4 both succeed, enqueue the indices of the
  -- frame with the same nexts, namely what the node defines or the next index in the
  -- configuration, return the number of buffers, and leave the same buffers but for their places
  -- in the configuration, if in each full stride whose four buffers are on one arc they are at one
  -- place. A buffer is configured where its arc has a configuration of less than 2^32 words and
  -- its feature data and the next index behind them lie inside it. The words of the frame are
  -- below 2^32 and readable up to a multiple of eight, and the pool starts at least 2^38 bytes
  -- below 2^64. The node goes by nothing of the place of a buffer in the configuration and keeps
  -- it and the arc, its methods succeed, and it runs its method for one buffer four times where it
  -- is given four. Prefetching and tracing change neither the buffer nor the node. The array has
  -- room for 256 pointers and is as the crate arrayvec documents it.
  pub generic_feature_node_x4-x1 :
      (s : S)
      → AllConfigured checks size decode mains node f buffers_of
      → IsUniform buffers_of
      → (one : Dispatched S (Packet D)) × (four : Dispatched S (Packet D))
        × (generic_feature_node_x1 checks size decode mains node m a empty buffer_at s frame
            ≡ ok one)
        × (generic_feature_node_x4 checks size decode mains node m a empty buffer_at s frame
            ≡ ok four)
        × (four.enqueued ≡ one.enqueued)
        × (one.enqueued ≡ (vector frame, values checks size decode mains node f s buffers_of))
        × (one.count ≡ frame.n_vectors)
        × (four.count ≡ frame.n_vectors)
        × (map unplaced four.buffers ≡ map unplaced one.buffers)
  unfolding generic_feature_node_x1 generic_feature_node_x4
  generic_feature_node_x4-x1 s c u =
      let (four, e, same) = each_x4_lem checks size decode mains node f h s buffers_of c u in
      let s' = last checks size decode mains node f s buffers_of in
      (
        dispatched s (packets checks size decode mains node f s buffers_of) s',
        dispatched s four s',
        rw
            (
              frame_buffers_lem,
              each_x1_lem checks size decode mains node f h s buffers_of c,
              dispatch_lem s s' (packets checks size decode mains node f s buffers_of),
            )
            refl,
        rw
            (
              frame_buffers_lem,
              e,
              trace_if_lem node f h (node.traces s') s' four,
              dispatch_lem s s' four,
            )
            refl,
        refl,
        refl,
        refl,
        refl,
        same,
      )
