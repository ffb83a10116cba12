-- ===== src/NodeGeneric/Tests.antt =====
-- A node that counts the buffers that it sees and drops those without contents.
use vpp_plugin_rs.Prelude.{
  inr, replicate, set, ℕ, ◌+◌, ◌/◌, ◌%◌, ◌<◌, ◌≡◌, refl, true, Option, none, some, List, [], ◌∷◌,
  map, if◌then◌else◌, ◌==◌, arith,
}
use vpp_plugin_rs.VnetBuffer.{
  set_tx_sw_if_index, vlib_tx, set_rx_sw_if_index, rx_sw_if_index, tx_sw_if_index, write_at, Packet,
  VnetBuffer, config_words,
}
use vpp_plugin_rs.Prelude.Bounded.{AllBelow}
use vpp_plugin_rs.Buffer.VectorLaws.{address}
use vpp_plugin_rs.VnetBuffer.Config.{advanced, next_index, heap_of, IsConfigured}
use vpp_plugin_rs.Outcome.{ok}
use vpp_plugin_rs.Buffer.Lookup.{BufferMain, ArrayVec, IsArrayVec}
use vpp_plugin_rs.VnetBuffer.Interfaces.{set_sw_if_index_lem}
use vpp_plugin_rs.NodeGeneric.{
  GenericFeatureNode, defined_node, next_feature, X4, list_x4, each_x1, each_x4,
}
use vpp_plugin_rs.NodeGeneric.Frame.{
  FrameRef, Dispatched, vector, generic_feature_node_x1, generic_feature_node_x4,
}
use vpp_plugin_rs.NodeGeneric.Steps.{
  Mapped, IsBlind, nexts_x4, packets_x4, state_x4, values, packets, last,
}
use vpp_plugin_rs.NodeGeneric.One.{each_x1_lem}
use vpp_plugin_rs.NodeGeneric.Four.{unplaced}
use vpp_plugin_rs.NodeGeneric.Stale.{each_x4-same_arc}
use vpp_plugin_rs.NodeGeneric.Dispatch.{IsFrame, generic_feature_node_x4-x1, pointers_of}

abbrev counting : ℕ → Packet ℕ → Mapped ℕ (Packet ℕ) ℕ
counting s p = record {
  next = if p.contents == 0 then defined_node 5 else next_feature;
  packet = p;
  state = s + 1;
}

abbrev counting_node : GenericFeatureNode ℕ (Packet ℕ) ℕ
counting_node = record {
  map_buffer_to_next = λ s p. ok ((counting s p).next, p, s + 1);
  prefetch_buffer_x4 = λ s b. ok (b, s);
  map_buffer_to_next_x4 =
      λ s b. ok (nexts_x4 counting s b, packets_x4 counting s b, state_x4 counting s b);
  trace_buffer = λ s p. ok (p, s);
  into_u16 = λ n. n;
  traces = λ s. true;
}

counting-IsBlind : IsBlind counting counting_node
counting-IsBlind = record {
  maps = λ s p. refl;
  keeps_arc = λ s p. refl;
  keeps_config = λ s p. refl;
  moves = λ s p i. refl;
  maps_x4 = λ s b. refl;
  prefetches = λ s b. refl;
  traces_kept = λ s p. refl;
}

-- One arc, with features whose data is one word.
abbrev arcs : List (List ℕ)
arcs = (8 ∷ 21 ∷ 9 ∷ 22 ∷ 7 ∷ 23 ∷ []) ∷ []

abbrev first_word : List ℕ → ℕ
first_word [] = 0
first_word (x ∷ xs) = x

abbrev on_arc : ℕ → ℕ → Packet ℕ
on_arc i contents = record {
  vnet = record { feature_arc_index = 0; sw_if_index = λ d. 3 };
  current_config_index = i;
  flags = 1;
  contents = contents;
}

abbrev mixed_stride : X4 (Packet ℕ)
mixed_stride = record { b0 = on_arc 0 1; b1 = on_arc 2 1; b2 = on_arc 4 1; b3 = on_arc 0 1 }

on_arc-IsConfigured :
    (i contents : ℕ) → i + 1 < 6 → IsConfigured 4 first_word arcs (on_arc i contents)
unfolding heap_of config_words
on_arc-IsConfigured i contents h = (omega arith, omega arith, omega arith)

abbrev five : List (Packet ℕ)
five = on_arc 2 1 ∷ on_arc 2 0 ∷ on_arc 2 1 ∷ on_arc 2 1 ∷ on_arc 4 1 ∷ []

each_x1_lem_example :
    each_x1 true 4 first_word arcs counting_node 0 (on_arc 0 1 ∷ on_arc 2 0 ∷ on_arc 2 7 ∷ [])
    ≡ ok (21 ∷ 5 ∷ 22 ∷ [], on_arc 2 1 ∷ on_arc 2 0 ∷ on_arc 4 7 ∷ [], 3)
unfolding values packets last next_index heap_of config_words advanced
each_x1_lem_example =
    each_x1_lem true 4 first_word arcs counting_node counting counting-IsBlind 0 _ (
      on_arc-IsConfigured 0 1 (omega arith),
      (on_arc-IsConfigured 2 0 (omega arith), (on_arc-IsConfigured 2 7 (omega arith), tt)),
    )

each_x4-same_arc_example :
    (one : List (Packet ℕ)) × (four : List (Packet ℕ)) × (s₁ : ℕ) × (s₂ : ℕ) × (each_x1 true 4
        first_word arcs counting_node 0
        (list_x4 mixed_stride)
      ≡ ok (21 ∷ 22 ∷ 23 ∷ 21 ∷ [], one, s₁))
    × (each_x4 true 4 first_word arcs counting_node 0 (list_x4 mixed_stride)
        ≡ ok (21 ∷ 21 ∷ 21 ∷ 21 ∷ [], four, s₂))
    × (map (λ p. p.current_config_index) one ≡ 2 ∷ 4 ∷ 6 ∷ 2 ∷ [])
    × (map (λ p. p.current_config_index) four ≡ 2 ∷ 2 ∷ 4 ∷ 0 ∷ [])
unfolding next_index heap_of config_words nexts_x4
each_x4-same_arc_example =
    each_x4-same_arc true 4 first_word arcs counting_node counting counting-IsBlind 0 mixed_stride
      (
        on_arc-IsConfigured 0 1 (omega arith),
        (
          on_arc-IsConfigured 2 1 (omega arith),
          (on_arc-IsConfigured 4 1 (omega arith), (on_arc-IsConfigured 0 1 (omega arith), tt)),
        ),
      )
      refl refl

-- A frame of five of the buffers of a pool, in an array of 256.
pub record FixedArray : Type 0 where
  pub count : ℕ
  pub cells : List (Option ℕ)

abbrev fixed : ArrayVec FixedArray
fixed = record {
  len = λ v. v.count;
  slots = λ v. v.cells;
  write_slots = λ v s. record v { cells = s };
  push_unchecked = λ v x. record { count = v.count + 1; cells = set v.cells v.count (some x) };
  set_len = λ v n. record v { count = n };
}

fixed-IsArrayVec : IsArrayVec fixed
fixed-IsArrayVec = record {
  written = λ v s h. refl;
  len_set = λ v n. refl;
  slots_set = λ v n. refl;
  len_push = λ v x h. refl;
  slots_push = λ v x h. refl;
}

abbrev small_pool : BufferMain
small_pool = record { buffer_mem_start = 4096; buffer_mem_size = 64000 }

abbrev small_frame : FrameRef
small_frame = record { memory = 7 ∷ 9 ∷ 8 ∷ 11 ∷ 13 ∷ 1 ∷ 1 ∷ 1 ∷ []; n_vectors = 5 }

abbrev no_buffers : FixedArray
no_buffers = record { count = 0; cells = replicate 256 none }

small_frame-IsFrame : IsFrame small_pool fixed no_buffers small_frame
small_frame-IsFrame = record {
  room = refl;
  within = omega arith;
  readable = omega arith;
  words = unfold AllBelow in ground arith;
  pool = unfold AllBelow in ground arith;
  fits = omega arith;
}

abbrev buffer_at : ℕ → Packet ℕ
buffer_at pointer = on_arc 2 (pointer / 64 % 2)

generic_feature_node_x4-x1_example :
    (one : Dispatched ℕ (Packet ℕ)) × (four : Dispatched ℕ (Packet ℕ)) × (generic_feature_node_x1
        true 4 first_word arcs counting_node small_pool fixed no_buffers buffer_at 0 small_frame
      ≡ ok one)
    × (generic_feature_node_x4 true 4 first_word arcs counting_node small_pool fixed no_buffers
          buffer_at 0 small_frame
        ≡ ok four)
    × (four.enqueued ≡ one.enqueued)
    × (one.enqueued ≡ (7 ∷ 9 ∷ 8 ∷ 11 ∷ 13 ∷ [], 22 ∷ 22 ∷ 5 ∷ 22 ∷ 22 ∷ []))
    × (one.count ≡ 5)
    × (four.count ≡ 5)
    × (map unplaced four.buffers ≡ map unplaced one.buffers)
unfolding pointers_of vector values next_index heap_of config_words address
generic_feature_node_x4-x1_example =
    generic_feature_node_x4-x1 true 4 first_word arcs counting_node small_pool fixed
      fixed-IsArrayVec no_buffers buffer_at counting counting-IsBlind small_frame
      small_frame-IsFrame 0
      (
        on_arc-IsConfigured 2 1 (omega arith),
        (
          on_arc-IsConfigured 2 1 (omega arith),
          (
            on_arc-IsConfigured 2 0 (omega arith),
            (on_arc-IsConfigured 2 1 (omega arith), (on_arc-IsConfigured 2 1 (omega arith), tt)),
          ),
        ),
      )
      (inr (refl, refl, refl), tt)

abbrev two_interfaces : VnetBuffer
two_interfaces = record { feature_arc_index = 0; sw_if_index = write_at vlib_tx 4 (λ d. 3) }

set_sw_if_index_lem_example :
    (tx_sw_if_index (set_tx_sw_if_index two_interfaces (some 6)) ≡ some 6)
    × (tx_sw_if_index (set_tx_sw_if_index two_interfaces none) ≡ none)
    × (rx_sw_if_index (set_tx_sw_if_index two_interfaces (some 6)) ≡ rx_sw_if_index two_interfaces)
    × (rx_sw_if_index (set_tx_sw_if_index two_interfaces none) ≡ rx_sw_if_index two_interfaces)
    × (tx_sw_if_index (set_rx_sw_if_index two_interfaces 6) ≡ some 6)
    × (rx_sw_if_index (set_rx_sw_if_index two_interfaces 6) ≡ rx_sw_if_index two_interfaces)
set_sw_if_index_lem_example = set_sw_if_index_lem two_interfaces 6 (omega arith)
