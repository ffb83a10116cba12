-- ===== src/Buffer/Pointers.antt =====
-- What `get_buffers` of vlib/buffer.rs gives, in both of its ways.
use vpp_plugin_rs.Prelude.Bounded.{AllBelow, take-split}
use vpp_plugin_rs.Buffer.LookupLaws.{copy_all_lem, done_at}
use vpp_plugin_rs.Prelude.{
  take_prefix, length-drop, length-take, ne→==_false, le→leb, ◌^◌, take, append_assoc, ◌%◌,
  map-append, set_prefix, set, length-map, length-append, append-nil, drop, length, lt→ltb, ◌/◌, ℕ,
  ◌+◌, ◌*◌, ◌-◌, ◌≤◌, ◌<◌, ◌≡◌, refl, ap, ◌∙◌, Bool, Option, some, List, [], ◌∷◌, ◌++◌, map, arith,
}
use vpp_plugin_rs.Buffer.VectorLaws.{address}
use vpp_plugin_rs.Buffer.Lookup.{
  get_buffers, shift_u32, IsArrayVec, ArrayVec, BufferMain, assert_indices, push_each,
}
use vpp_plugin_rs.Outcome.Laws.{debug_assert-true, sub_word-ok, add_word-ok}
use vpp_plugin_rs.Outcome.{u32_mod, ok, usize_mod}
use vpp_plugin_rs.Buffer.Vector.{next_multiple_of_pow2}

-- Indices of buffers that lie in the memory of the pool are not refused by the debug build.
assert_indices_lem :
    (checks : Bool) (m : BufferMain) (xs : List ℕ)
    → AllBelow (m.buffer_mem_size / 64) xs
    → assert_indices checks m xs ≡ ok tt
unfolding assert_indices AllBelow
assert_indices_lem checks m [] h = refl
assert_indices_lem checks m (x ∷ xs) (h, t) = rw (
  lt→ltb (shift_u32 x) m.buffer_mem_size (omega arith),
  debug_assert-true checks,
  assert_indices_lem checks m xs t,
)

round_lem :
    (checks : Bool) (n : ℕ)
    → n + 8 < usize_mod
    → next_multiple_of_pow2 checks n 3 ≡ ok ((n + 7) / 8 * 8)
unfolding next_multiple_of_pow2
round_lem checks n h =
    rw (add_word-ok checks usize_mod n 8 h, sub_word-ok checks usize_mod (n + 8) 1 (omega arith))
      (ap ok (omega arith))

push_each_lem :
    {V : Type 0} (checks : Bool) (m : BufferMain) (a : ArrayVec V) (laws : IsArrayVec a)
    (front xs : List ℕ) (spare : List (Option ℕ)) (to : V)
    → m.buffer_mem_size ≤ u32_mod
    → AllBelow (m.buffer_mem_size / 64) xs
    → a.slots to ≡ map some front ++ spare
    → a.len to ≡ length front
    → length xs ≤ length spare
    → (a.len (push_each checks m a xs to) ≡ length front + length xs)
      × (a.slots (push_each checks m a xs to)
          ≡ map some (front ++ map (address m.buffer_mem_start) xs) ++ drop (length xs) spare)
unfolding push_each AllBelow
push_each_lem checks m a laws front [] spare to size h e l room = (omega arith, e ∙ simp append-nil)
push_each_lem checks m a laws front (x ∷ xs) [] to size h e l room = absurd (omega arith)
push_each_lem checks m a laws front (x ∷ xs) (s ∷ spare) to size (h, t) e l room =
    let (len', slots') =
      push_each_lem checks m a laws (front ++ p ∷ []) xs spare (a.push_unchecked to q) size t
        (laws.slots_push to q inside
          ∙ ap (λ r. set r (a.len to) (some q)) e
          ∙ set_prefix (a.len to) (map some front) s spare (some q)
              (omega (arith, l, length-map {B = Option ℕ} some front))
          ∙ ap (λ y. map some front ++ some y ∷ spare) same
          ∙ simp (map-append, append_assoc))
        (omega (arith, laws.len_push to q inside, length-append front (p ∷ []), l)) (omega arith) in
    (
      omega (arith, len', length-append front (p ∷ [])),
      slots'
          ∙ ap (λ r. map some r ++ drop (length xs) spare)
              (append_assoc front (p ∷ []) (map (address m.buffer_mem_start) xs)),
    )
  where
    p : ℕ
    p = address m.buffer_mem_start x

    q : ℕ
    q = m.buffer_mem_start + shift_u32 x

    inside : a.len to < length (a.slots to)
    inside = rw e (
        omega (
          arith,
          l,
          length-append (map some front) (s ∷ spare),
          length-map {B = Option ℕ} some front,
        ))

    same : q ≡ p
    same = unfold address in omega (arith, h, size)

module _ (m : BufferMain) (mem : List ℕ) (old : List (Option ℕ)) (t : ℕ) where
  start_lem :
      record { slots = old; from_index = 0; to_ptr = 0; len = t * 8 } ≡ done_at m mem old t 0
  unfolding done_at
  start_lem = ap (λ l. record { slots = old; from_index = 0; to_ptr = 0; len = l }) (omega arith)

  length-done :
      t * 8 ≤ length mem → t * 8 ≤ length old → length (done_at m mem old t t).slots ≡ length old
  unfolding done_at
  length-done readable writable =
      let pointers = map (address m.buffer_mem_start) (take (t * 8) mem) in
      omega (
        arith,
        length-append (map {B = Option ℕ} some pointers) (drop (t * 8) old),
        length-map {B = Option ℕ} some pointers,
        length-map (address m.buffer_mem_start) (take (t * 8) mem),
        length-take (t * 8) mem,
        length-drop (t * 8) old,
      )

  take-done :
      (n : ℕ)
      → n ≤ t * 8
      → n ≤ length mem
      → take n (done_at m mem old t t).slots
        ≡ map some (map (address m.buffer_mem_start) (take n mem))
  unfolding done_at
  take-done n below readable =
      let f = address m.buffer_mem_start in
      let more = take (t * 8 - n) (drop n mem) in
      rw
        (
          take-split n (t * 8 - n) (t * 8) mem (omega arith),
          map-append f (take n mem) more,
          map-append {B = Option ℕ} some (map f (take n mem)) (map f more),
          append_assoc (map {B = Option ℕ} some (map f (take n mem))) (map some (map f more))
              (drop (t * 8) old),
        )
        (take_prefix n (map some (map f (take n mem))) _ (
          omega (
            arith,
            length-map {B = Option ℕ} some (map f (take n mem)),
            length-map f (take n mem),
            length-take n mem,
          )))

module _ {V : Type 0} (checks : Bool) (m : BufferMain) (a : ArrayVec V) (laws : IsArrayVec a)
    (capacity : ℕ) (mem : List ℕ) (n : ℕ) (to : V) where
  -- Where the capacity is a multiple of 8, the branches over vectors of eight leave in the target
  -- the address of the buffer of each index, in order, and nothing else counted, though up to
  -- seven stale indices are read; the target has that capacity, memory is readable up to the next
  -- multiple of 8 indices, the indices lie in the pool and its addresses fit a word. The array is
  -- as the crate arrayvec documents it.
  pub get_buffers-aligned :
      capacity % 8 ≡ 0
      → length (a.slots to) ≡ capacity
      → n ≤ capacity
      → capacity + 8 < usize_mod
      → (n + 7) / 8 * 8 ≤ length mem
      → AllBelow u32_mod mem
      → AllBelow (m.buffer_mem_size / 64) (take n mem)
      → m.buffer_mem_start + 2 ^ 38 ≤ usize_mod
      → (to' : V) × (get_buffers checks m a capacity mem n to ≡ ok to')
        × (a.len to' ≡ n)
        × (take n (a.slots to') ≡ map some (map (address m.buffer_mem_start) (take n mem)))
  unfolding get_buffers
  get_buffers-aligned multiple room within small readable words pool fits =
      let t = (n + 7) / 8 in
      (
        a.set_len (a.write_slots to (done_at m mem (a.slots to) t t).slots) n,
        rw (
          le→leb n capacity within,
          debug_assert-true checks,
          assert_indices_lem checks m (take n mem) pool,
          multiple,
          round_lem checks n (omega arith),
          start_lem m mem (a.slots to) t,
          copy_all_lem checks m mem (a.slots to) t fits words readable (omega arith),
        ),
        laws.len_set _ n,
        ap (take n) (
              laws.slots_set _ n
              ∙ laws.written to _ (length-done m mem (a.slots to) t readable (omega arith)))
            ∙ take-done m mem (a.slots to) t n (omega arith) (omega arith),
      )

  -- Where the capacity is not a multiple of 8, the loop that pushes one pointer after the other
  -- leaves the same in an empty target, if the indices lie in the pool and its memory is at most 4
  -- GiB. The array is as the crate arrayvec documents it.
  pub get_buffers-unaligned :
      0 < capacity % 8
      → length (a.slots to) ≡ capacity
      → n ≤ capacity
      → n ≤ length mem
      → a.len to ≡ 0
      → m.buffer_mem_size ≤ u32_mod
      → AllBelow (m.buffer_mem_size / 64) (take n mem)
      → (to' : V) × (get_buffers checks m a capacity mem n to ≡ ok to')
        × (a.len to' ≡ n)
        × (take n (a.slots to') ≡ map some (map (address m.buffer_mem_start) (take n mem)))
  unfolding get_buffers
  get_buffers-unaligned odd room within readable empty size pool =
      let (len', slots') =
        push_each_lem checks m a laws [] (take n mem) (a.slots to) to size pool refl empty
          (omega (arith, length-take n mem)) in
      (
        push_each checks m a (take n mem) to,
        rw (
          le→leb n capacity within,
          debug_assert-true checks,
          assert_indices_lem checks m (take n mem) pool,
          ne→==_false (capacity % 8) 0 (λ e. omega arith),
        ),
        omega (arith, len', length-take n mem),
        ap (take n) slots'
            ∙ take_prefix n (map some (map (address m.buffer_mem_start) (take n mem))) _ (
                omega (
                  arith,
                  length-map {B = Option ℕ} some (map (address m.buffer_mem_start) (take n mem)),
                  length-map (address m.buffer_mem_start) (take n mem),
                  length-take n mem,
                )),
      )
