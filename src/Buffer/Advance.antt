-- ===== src/Buffer/Advance.antt =====
-- Moving the start and the end of a buffer's data in vlib/buffer.rs.
use vpp_plugin_rs.Prelude.Int.{
  difference-above, pos-add, below-neg, above-neg, difference-cong, above-difference, ℤ, pos,
  negsuc, ◌+ℤ◌, neg, above, below, bits_16,
}
use vpp_plugin_rs.Prelude.{
  ◌∙◌, ℕ, ◌+◌, ◌-◌, ◌^◌, ◌≤◌, ◌<◌, ◌≡◌, refl, ap, Bool, true, arith, inl, inr, Bool-cases,
}
use vpp_plugin_rs.Buffer.Metadata.{
  current_ptr_mut, tail_mut, put_uninit, min_chain_seg_size, next_present, contains, pre_data_size,
  advance, BufferRef,
}
use vpp_plugin_rs.Outcome.{ok, ◌>>=◌}

-- The data starts in the buffer, at most 128 bytes before `data`, and ends within `size` bytes, which an i16 holds even with 128 more.
pub record IsPlaced (size : ℕ) (b : BufferRef) : Type 0 where
  pub starts : below b.current_data ≤ pre_data_size
  pub ends : above b.current_data + b.current_length ≤ size + below b.current_data
  pub short : size + pre_data_size < 2 ^ 15

-- A move by `l` that the caller may ask for.
pub record MayAdvance (b : BufferRef) (l : ℤ) : Type 0 where
  pub within : above l ≤ b.current_length
  pub headroom : below l + below b.current_data ≤ pre_data_size + above b.current_data
  pub chained :
      contains b.flags next_present ≡ true
      → min_chain_seg_size + above l ≤ b.current_length + below l

module _ (checks : Bool) (size : ℕ) where
  abbrev pub advanced : BufferRef → ℤ → BufferRef
  advanced b l = record b {
    current_data = b.current_data +ℤ l;
    current_length = b.current_length + below l - above l;
  }

  advance_lem :
      (b : BufferRef) (l : ℤ)
      → IsPlaced size b
      → MayAdvance b l
      → advance checks b l ≡ ok (advanced b l)
  unfolding advance ◌+ℤ◌ neg bits_16
  advance_lem b (pos n) h k = elim (Bool-cases (contains b.flags next_present)) [
    | inl e ↦ let more = k.chained e in ground (arith, e, more)
    | inr e ↦ ground (arith, e)
  ]
  advance_lem b (negsuc n) h k = elim (Bool-cases (contains b.flags next_present)) [
    | inl e ↦ let more = k.chained e in ground (arith, e, more)
    | inr e ↦ ground (arith, e)
  ]

  advanced-IsPlaced :
      (b : BufferRef) (l : ℤ) → IsPlaced size b → MayAdvance b l → IsPlaced size (advanced b l)
  unfolding ◌+ℤ◌
  advanced-IsPlaced b l h k = record { starts = ground arith; ends = ground arith; short = h.short }

  tail_lem :
      (b : BufferRef)
      → IsPlaced size b
      → tail_mut checks b ≡ ok (b.current_data +ℤ pos b.current_length)
  unfolding tail_mut neg
  tail_lem b h = ground arith

  advanced-end :
      (b : BufferRef) (l : ℤ)
      → MayAdvance b l
      → (advanced b l).current_data +ℤ pos (advanced b l).current_length
        ≡ b.current_data +ℤ pos b.current_length
  unfolding ◌+ℤ◌
  advanced-end b l k =
      let moved =
        above-difference (above b.current_data + above l) (below b.current_data + below l) in
      difference-cong _ _ _ _ (omega arith)

  current_lem : (b : BufferRef) → IsPlaced size b → current_ptr_mut checks b ≡ ok b.current_data
  unfolding current_ptr_mut neg
  current_lem b h = ground arith

  -- With and without overflow checks, advance by a positive or negative length succeeds, moves the
  -- start of the data by it and leaves the end and the flags where they were, and the data stays
  -- inside the buffer. The data must lie in the buffer, of a size that leaves 128 bytes below
  -- 2^15; the length must not pass the end of the data nor the 128 bytes before it, and leave 128
  -- bytes in a segment that has a next one.
  pub advance-tail_mut :
      (b : BufferRef) (l : ℤ)
      → IsPlaced size b
      → MayAdvance b l
      → (b' : BufferRef) × (advance checks b l ≡ ok b')
        × IsPlaced size b'
        × (current_ptr_mut checks b' ≡ ok (b.current_data +ℤ l))
        × (tail_mut checks b' ≡ tail_mut checks b)
        × (b'.flags ≡ b.flags)
  advance-tail_mut b l h k =
      let p = advanced-IsPlaced b l h k in
      (
        advanced b l,
        advance_lem b l h k,
        p,
        current_lem (advanced b l) p,
        rw (tail_lem (advanced b l) p, tail_lem b h) (ap ok (advanced-end b l k)),
        refl,
      )

  -- Where the bytes fit in the buffer, put_uninit gives the old end of the data, which it moves by
  -- their number, and leaves the start. The data must lie in the buffer, of a size that leaves 128
  -- bytes below 2^15.
  pub put_uninit-tail_mut :
      (b : BufferRef) (n : ℕ)
      → IsPlaced size b
      → above b.current_data + b.current_length + n ≤ size + below b.current_data
      → (b' : BufferRef) × (start : ℤ) × (put_uninit checks b n ≡ ok (start, b'))
        × IsPlaced size b'
        × (tail_mut checks b ≡ ok start)
        × (tail_mut checks b' ≡ ok (start +ℤ pos n))
        × (current_ptr_mut checks b' ≡ current_ptr_mut checks b)
  unfolding put_uninit
  put_uninit-tail_mut b n h k =
      let b' : BufferRef = record b { current_length = b.current_length + n } in
      let p : IsPlaced size b' = record {
        starts = h.starts;
        ends = omega arith;
        short = h.short;
      } in
      (
        b',
        b.current_data +ℤ pos b.current_length,
        rw (tail_lem b h) (ground arith),
        p,
        tail_lem b h,
        rw (tail_lem b' p) (ap ok (pos-add b.current_data b.current_length n)),
        rw (current_lem b' p, current_lem b h) refl,
      )

  back-MayAdvance :
      (b : BufferRef) (l : ℤ)
      → IsPlaced size b
      → MayAdvance b l
      → (contains b.flags next_present ≡ true → min_chain_seg_size ≤ b.current_length)
      → MayAdvance (advanced b l) (neg l)
  unfolding ◌+ℤ◌
  back-MayAdvance b l h k more =
      let moved =
        above-difference (above b.current_data + above l) (below b.current_data + below l) in
      record {
        within = omega (arith, above-neg l);
        headroom = omega (arith, above-neg l, below-neg l);
        chained = λ e. let m = more e in omega (arith, above-neg l, below-neg l);
      }

  advanced-advanced : (b : BufferRef) (l : ℤ) → MayAdvance b l → advanced (advanced b l) (neg l) ≡ b
  unfolding ◌+ℤ◌
  advanced-advanced b l k =
      let moved =
        above-difference (above b.current_data + above l) (below b.current_data + below l) in
      let data_same : b.current_data +ℤ l +ℤ neg l ≡ b.current_data =
        difference-cong _ _ _ _ (omega (arith, above-neg l, below-neg l))
        ∙ difference-above b.current_data in
      let length_same : b.current_length + below l - above l + below (neg l) - above (neg l)
          ≡ b.current_length =
        omega (arith, above-neg l, below-neg l) in
      λ i. record b { current_data = data_same i; current_length = length_same i }

  -- advance back by the same length restores the buffer, under the same conditions, if a segment
  -- that has a next one had 128 bytes before.
  pub advance-advance :
      (b : BufferRef) (l : ℤ)
      → IsPlaced size b
      → MayAdvance b l
      → (contains b.flags next_present ≡ true → min_chain_seg_size ≤ b.current_length)
      → (advance checks b l >>= λ b'. advance checks b' (neg l)) ≡ ok b
  advance-advance b l h k more =
      rw
        (
          advance_lem b l h k,
          advance_lem (advanced b l) (neg l) (advanced-IsPlaced b l h k)
              (back-MayAdvance b l h k more),
        )
        (ap ok (advanced-advanced b l k))
