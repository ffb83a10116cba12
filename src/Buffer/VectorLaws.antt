-- ===== src/Buffer/VectorLaws.antt =====
-- Vectors loaded from memory, shifted and added to, and stored again.
use vpp_plugin_rs.Prelude.Bounded.{
  drop-map, take-map, AllBelow-drop, AllBelow-take, take-split, drop-drop, AllBelow,
}
use vpp_plugin_rs.Prelude.{
  append_assoc, length-drop, length-append, length-take, append-nil, get_elem?, length, take, drop,
  ◌^◌, ℕ, zero, suc, ◌+◌, ◌*◌, ◌≤◌, ◌<◌, ◌≡◌, refl, ap, ◌∙◌, Bool, Option, some, List, [], ◌∷◌,
  ◌++◌, map, arith,
}
use vpp_plugin_rs.Outcome.Laws.{add_word-ok}
use vpp_plugin_rs.VppVec.CollectLaws.{write_each_lem}
use vpp_plugin_rs.Buffer.Vector.{
  shift_lane, shift_elements_left, add_u64, add_vectors, from_u32_ptr, store, store_vectors,
  read_cells, load_vectors,
}
use vpp_plugin_rs.Outcome.{u32_mod, ok, usize_mod}

drop-cons :
    (i j : ℕ) (mem : List ℕ)
    → j ≡ i + 1
    → i < length mem
    → (x : ℕ) × (get_elem? mem i ≡ some x) × (drop i mem ≡ x ∷ drop j mem)
drop-cons i j [] e h = absurd (omega arith)
drop-cons i zero (x ∷ mem) e h = absurd (omega arith)
drop-cons zero (suc j) (x ∷ mem) e h =
    let z : zero ≡ j = omega arith in (x, refl, ap (λ k. x ∷ drop k mem) z)
drop-cons (suc i) (suc j) (x ∷ mem) e h = drop-cons i j mem (omega arith) (omega arith)

read_cells_lem :
    (mem : List ℕ) (i n : ℕ) → i + n ≤ length mem → read_cells mem i n ≡ ok (take n (drop i mem))
unfolding read_cells
read_cells_lem mem i zero h = refl
read_cells_lem mem i (suc n) h =
    let (x, e, d) = drop-cons i (i + 1) mem refl (omega arith) in
    rw (e, d, read_cells_lem mem (i + 1) n (omega arith))

-- The first `k` vectors of eight.
abbrev pub chunks : ℕ → List ℕ → List (List ℕ)
chunks zero xs = []
chunks (suc k) xs = take 8 xs ∷ chunks k (drop 8 xs)

pub load_vectors_lem :
    (mem : List ℕ) (ptr k : ℕ)
    → ptr + k * 8 ≤ length mem
    → load_vectors mem ptr k ≡ ok (chunks k (drop ptr mem))
unfolding load_vectors from_u32_ptr
load_vectors_lem mem ptr zero h = refl
load_vectors_lem mem ptr (suc k) h = rw (
  read_cells_lem mem ptr 8 (omega arith),
  load_vectors_lem mem (ptr + 8) k (omega arith),
  drop-drop 8 ptr (ptr + 8) mem refl,
)

-- The address of the buffer with an index.
unfoldable pub address : ℕ → ℕ → ℕ
address start x = start + x * 64

module _ (checks : Bool) (start : ℕ) (fits : start + 2 ^ 38 ≤ usize_mod) where
  add_u64_lem :
      (xs : List ℕ)
      → AllBelow u32_mod xs
      → add_u64 checks start (map (shift_lane 6) xs) ≡ ok (map (address start) xs)
  unfolding AllBelow add_u64 address
  add_u64_lem [] h = refl
  add_u64_lem (x ∷ xs) (h, t) =
      let e : shift_lane 6 x ≡ x * 64 = omega arith in
      rw (e, add_word-ok checks usize_mod (x * 64) start (omega arith), add_u64_lem xs t)
        (ap (λ y. ok (y ∷ map (address start) xs)) (omega arith))

  pub add_vectors_lem :
      (k : ℕ) (xs : List ℕ)
      → AllBelow u32_mod xs
      → add_vectors checks start (map (shift_elements_left 6) (chunks k xs))
        ≡ ok (chunks k (map (address start) xs))
  unfolding add_vectors shift_elements_left
  add_vectors_lem zero xs h = refl
  add_vectors_lem (suc k) xs h = rw (
    add_u64_lem (take 8 xs) (AllBelow-take u32_mod 8 xs h),
    add_vectors_lem k (drop 8 xs) (AllBelow-drop u32_mod 8 xs h),
    take-map (address start) 8 xs,
    drop-map (address start) 8 xs,
  )

pub store_vectors_lem :
    (slots : List (Option ℕ)) (front ys : List ℕ) (spare : List (Option ℕ)) (ptr k : ℕ)
    → slots ≡ map some front ++ spare
    → ptr ≡ length front
    → k * 8 ≤ length ys
    → k * 8 ≤ length spare
    → store_vectors slots ptr (chunks k ys)
      ≡ ok (map some (front ++ take (k * 8) ys) ++ drop (k * 8) spare)
unfolding store_vectors store
store_vectors_lem slots front ys spare ptr zero e m h l = ap ok (e ∙ simp append-nil)
store_vectors_lem slots front ys spare ptr (suc k) e m h l = rw (
  write_each_lem slots front (take 8 ys) spare ptr e m (omega (arith, eight)),
  eight,
  store_vectors_lem (map some (front ++ take 8 ys) ++ drop 8 spare) (front ++ take 8 ys) (drop 8 ys)
      (drop 8 spare) (ptr + 8) k refl (omega (arith, length-append front (take 8 ys), eight))
      (omega (arith, length-drop 8 ys)) (omega (arith, length-drop 8 spare)),
  append_assoc front (take 8 ys) (take (k * 8) (drop 8 ys)),
  take-split 8 (k * 8) (suc k * 8) ys (omega arith),
  drop-drop (k * 8) 8 (suc k * 8) spare (omega arith),
)
  where
    eight : length (take 8 ys) ≡ 8
    eight = omega (arith, length-take 8 ys)
