-- ===== src/Buffer/LookupLaws.antt =====
-- The loop and the branches of `get_buffers` in vlib/buffer.rs copy every vector of eight once.
use vpp_plugin_rs.Prelude.Bounded.{drop-drop, take-split, take-map, AllBelow-drop, AllBelow}
use vpp_plugin_rs.Prelude.{
  inr, inl, Bool-cases, leb, ltb, lt→leb_false, map-append, sym, length-drop, length-take,
  length-map, length, drop, take, ◌^◌, ℕ, zero, suc, ◌+◌, ◌*◌, ◌-◌, ◌≤◌, ◌<◌, ◌≡◌, refl, ap, Bool,
  Option, some, List, ◌++◌, map, arith,
}
use vpp_plugin_rs.Buffer.Lookup.{copy_all, copy_while, copy_if, copy_vectors, Copying, BufferMain}
use vpp_plugin_rs.Buffer.VectorLaws.{store_vectors_lem, add_vectors_lem, load_vectors_lem, address}
use vpp_plugin_rs.Outcome.{ok, u32_mod, usize_mod}

-- The copy when `q` of `t` vectors of eight are done.
unfoldable pub done_at : BufferMain → List ℕ → List (Option ℕ) → ℕ → ℕ → Copying
done_at m mem old t q = record {
  slots = map some (map (address m.buffer_mem_start) (take (q * 8) mem)) ++ drop (q * 8) old;
  from_index = q * 8;
  to_ptr = q * 8;
  len = t * 8 - q * 8;
}

module _ (checks : Bool) (m : BufferMain) (mem : List ℕ) (old : List (Option ℕ)) (t : ℕ)
    (fits : m.buffer_mem_start + 2 ^ 38 ≤ usize_mod) (words : AllBelow u32_mod mem)
    (readable : t * 8 ≤ length mem) (writable : t * 8 ≤ length old) where
  copy_vectors_lem :
      (k q r : ℕ)
      → r ≡ q + k
      → r ≤ t
      → copy_vectors checks m mem k (done_at m mem old t q) ≡ ok (done_at m mem old t r)
  unfolding copy_vectors done_at
  copy_vectors_lem k q r e h = rw (
    load_vectors_lem mem (q * 8) k (omega (arith, readable)),
    add_vectors_lem checks m.buffer_mem_start fits k (drop (q * 8) mem)
        (AllBelow-drop u32_mod (q * 8) mem words),
    store_vectors_lem
        (map some (map (address m.buffer_mem_start) (take (q * 8) mem)) ++ drop (q * 8) old)
        (map (address m.buffer_mem_start) (take (q * 8) mem))
        (map (address m.buffer_mem_start) (drop (q * 8) mem)) (drop (q * 8) old) (q * 8) k refl
        (omega (
          arith,
          readable,
          length-map (address m.buffer_mem_start) (take (q * 8) mem),
          length-take (q * 8) mem,
        ))
        (omega (
          arith,
          readable,
          length-map (address m.buffer_mem_start) (drop (q * 8) mem),
          length-drop (q * 8) mem,
        ))
        (omega (arith, writable, length-drop (q * 8) old)),
    take-map (address m.buffer_mem_start) (k * 8) (drop (q * 8) mem),
    sym (
        map-append (address m.buffer_mem_start) (take (q * 8) mem)
          (take (k * 8) (drop (q * 8) mem))),
    sym (take-split (q * 8) (k * 8) (r * 8) mem (omega arith)),
    drop-drop (k * 8) (q * 8) (r * 8) old (omega arith),
    from,
    left,
  )
    where
      from : q * 8 + k * 8 ≡ r * 8
      from = omega arith

      left : t * 8 - q * 8 - k * 8 ≡ t * 8 - r * 8
      left = omega arith

  -- A branch for `2 ^ j` vectors halves the most that can be left.
  copy_if_lem :
      (k q : ℕ)
      → q ≤ t
      → t < q + 2 * k
      → (r : ℕ) × (copy_if checks m
            (leb (k * 8) (done_at m mem old t q).len)
            mem
            k
            (done_at m mem old t q)
          ≡ ok (done_at m mem old t r))
        × (r ≤ t)
        × (t < r + k)
  copy_if_lem k q le lt = elim (Bool-cases (leb (k * 8) (done_at m mem old t q).len)) [
    | inl e ↦ (
      q + k,
      unfold copy_if in rw e (copy_vectors_lem k q (q + k) refl (unfold done_at in ground arith)),
      unfold done_at in ground arith,
      omega arith,
    )
    | inr e ↦ (q, unfold copy_if in rw e, le, unfold done_at in ground arith)
  ]

  last_lem :
      (q : ℕ)
      → q ≤ t
      → t < q + 2
      → copy_if checks m (ltb 0 (done_at m mem old t q).len) mem 1 (done_at m mem old t q)
        ≡ ok (done_at m mem old t t)
  last_lem q le lt = elim (Bool-cases (ltb 0 (done_at m mem old t q).len)) [
    | inl e ↦
        unfold copy_if in
        rw e (copy_vectors_lem 1 q t (unfold done_at in ground arith) (omega arith))
    | inr e ↦
        unfold copy_if in
        rw e (ap (λ r. ok (done_at m mem old t r)) (unfold done_at in ground arith))
  ]

  -- The loop leaves fewer than 64 indices, on as much fuel as there are indices.
  copy_while_lem :
      (fuel q : ℕ)
      → q ≤ t
      → t ≤ q + fuel
      → (r : ℕ) × (copy_while checks m fuel mem (done_at m mem old t q)
          ≡ ok (done_at m mem old t r))
        × (r ≤ t)
        × (t < r + 8)
  unfolding copy_while
  copy_while_lem zero q le lt = (
    q,
    rw (lt→leb_false 64 (done_at m mem old t q).len (unfold done_at in omega arith)),
    le,
    omega arith,
  )
  copy_while_lem (suc fuel) q le lt = elim (Bool-cases (leb 64 (done_at m mem old t q).len)) [
    | inl e ↦
        let more : q + 8 ≤ t = unfold done_at in ground arith in
        let (r, run, le', lt') = copy_while_lem fuel (q + 8) more (omega arith) in
        (r, rw (e, copy_vectors_lem 8 q (q + 8) refl more, run), le', lt')
    | inr e ↦ (q, rw e, le, unfold done_at in ground arith)
  ]

  pub copy_all_lem : copy_all checks m mem (done_at m mem old t 0) ≡ ok (done_at m mem old t t)
  unfolding copy_all
  copy_all_lem =
      let (q₁, e₁, le₁, lt₁) =
        copy_while_lem (done_at m mem old t 0).len 0 (omega arith)
          (unfold done_at in omega arith) in
      let (q₂, e₂, le₂, lt₂) = copy_if_lem 4 q₁ le₁ lt₁ in
      let (q₃, e₃, le₃, lt₃) = copy_if_lem 2 q₂ le₂ lt₂ in rw (e₁, e₂, e₃, last_lem q₃ le₃ lt₃)
