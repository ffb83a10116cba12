-- ===== src/NodeGeneric/Frame.antt =====
-- The whole of `generic_feature_node_x1` and `generic_feature_node_x4` of vlib/node_generic.rs, from the
-- indices in the frame to the call that enqueues them, with `FrameRef` of vlib/node.rs.
use vpp_plugin_rs.Outcome.{debug_assert, Outcome, ok, fault, ◌>>=◌, ◌>>◌, u16_mod}
use vpp_plugin_rs.Prelude.{ℕ, ◌%◌, Bool, Option, none, some, List, [], ◌∷◌, map, length, take, ◌==◌}
use vpp_plugin_rs.VnetBuffer.{Packet}
use vpp_plugin_rs.Buffer.Lookup.{ArrayVec, BufferMain, get_buffers}
use vpp_plugin_rs.NodeGeneric.{GenericFeatureNode, each_x1, each_x4, trace_if}

abbrev pub frame_size : ℕ
frame_size = 256

-- The memory from the vector of the frame on, and how many of its elements count.
pub record FrameRef : Type 0 where
  pub memory : List ℕ
  pub n_vectors : ℕ

unfoldable pub vector : FrameRef → List ℕ
vector f = take f.n_vectors f.memory

-- What a node hands on: the indices with their nexts, the buffers at their pointers, and its state.
pub record Dispatched (S P : Type 0) : Type 0 where
  pub enqueued : List ℕ × List ℕ
  pub pointers : List ℕ
  pub buffers : List P
  pub state : S
  pub count : ℕ

-- An element that nothing has written is not to be read.
abbrev pub initialised : List (Option ℕ) → Outcome (List ℕ)
initialised [] = ok []
initialised (none ∷ xs) = fault
initialised (some x ∷ xs) = do rest ← initialised xs; ok (x ∷ rest)

-- The call of `buffer_enqueue_to_next_fn`, behind the assertion on the lengths.
unfoldable pub buffer_enqueue_to_next : Bool → List ℕ → List ℕ → Outcome (List ℕ × List ℕ)
buffer_enqueue_to_next checks from nexts = do
  debug_assert checks (length from == length nexts)
  ok (from, nexts)

module _ {F S D N V : Type 0} (checks : Bool) (size : ℕ) (decode : List ℕ → F)
    (mains : List (List ℕ)) (node : GenericFeatureNode S (Packet D) N) (m : BufferMain)
    (a : ArrayVec V) (empty : V) (buffer_at : ℕ → Packet D) where
  -- `frame.get_buffers`: the pointers to the buffers.
  unfoldable pub frame_buffers : FrameRef → Outcome (List ℕ)
  frame_buffers f = do
    b ← get_buffers checks m a frame_size f.memory f.n_vectors empty
    initialised (take (a.len b) (a.slots b))

  unfoldable pub dispatch :
      FrameRef → List ℕ → List ℕ × List (Packet D) × S → Outcome (Dispatched S (Packet D))
  dispatch f pointers (nexts, ps, s) = do
    enqueued ← buffer_enqueue_to_next checks (vector f) nexts
    ok (record {
      enqueued = enqueued;
      pointers = pointers;
      buffers = ps;
      state = s;
      count = length (vector f) % u16_mod;
    })

  unfoldable pub generic_feature_node_x1 : S → FrameRef → Outcome (Dispatched S (Packet D))
  generic_feature_node_x1 s f = do
    pointers ← frame_buffers f
    done ← each_x1 checks size decode mains node s (map buffer_at pointers)
    dispatch f pointers done

  unfoldable pub generic_feature_node_x4 : S → FrameRef → Outcome (Dispatched S (Packet D))
  generic_feature_node_x4 s f = do
    pointers ← frame_buffers f
    (nexts, ps, s₁) ← each_x4 checks size decode mains node s (map buffer_at pointers)
    (ps', s₂) ← trace_if node (node.traces s₁) s₁ ps
    dispatch f pointers (nexts, ps', s₂)
