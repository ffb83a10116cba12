-- ===== src/Counter/Sums.antt =====
-- What the threads have counted adds up.
use vpp_plugin_rs.Prelude.{
  ◌∙◌, length-set, ◌≢◌, ℕ, zero, suc, ◌+◌, ◌<◌, ◌≡◌, refl, ap, Bool, List, [], ◌∷◌, some, get_elem?,
  set, length, if◌then◌else◌, ◌==◌, arith,
}
use vpp_plugin_rs.Outcome.Laws.{add_word-ok}
use vpp_plugin_rs.Counter.{SimpleCounter, increment, sum_counters, get}
use vpp_plugin_rs.Outcome.{ok, usize_mod}

-- Every row reaches to the index.
unfoldable pub AllReach : ℕ → List (List ℕ) → Type 0
AllReach index [] = Unit
AllReach index (row ∷ rows) = (index < length row) × AllReach index rows

-- The counter of one thread, and those of all of them.
unfoldable pub count_of : List ℕ → ℕ → ℕ
count_of [] index = 0
count_of (x ∷ xs) zero = x
count_of (x ∷ xs) (suc index) = count_of xs index

unfoldable pub total : ℕ → List (List ℕ) → ℕ
total index [] = 0
total index (row ∷ rows) = count_of row index + total index rows

count_at :
    (row : List ℕ) (index : ℕ)
    → index < length row
    → get_elem? row index ≡ some (count_of row index)
unfolding count_of
count_at [] index h = absurd (omega arith)
count_at (x ∷ xs) zero h = refl
count_at (x ∷ xs) (suc index) h = count_at xs index (omega arith)

count_of-set :
    (row : List ℕ) (index j n : ℕ)
    → index < length row
    → count_of (set row index (count_of row index + n)) j
      ≡ count_of row j + (if index == j then n else 0)
unfolding count_of
count_of-set [] index j n h = absurd (omega arith)
count_of-set (x ∷ xs) zero zero n h = ground arith
count_of-set (x ∷ xs) zero (suc j) n h = ground arith
count_of-set (x ∷ xs) (suc index) zero n h = ground arith
count_of-set (x ∷ xs) (suc index) (suc j) n h =
    let ih = count_of-set xs index j n (omega arith) in ground (arith, ih)

-- A thread's row, from the row's number.
row_at :
    (rows : List (List ℕ)) (thread index : ℕ)
    → thread < length rows
    → AllReach index rows
    → (row : List ℕ) × (get_elem? rows thread ≡ some row) × (index < length row)
unfolding AllReach
row_at [] thread index h reach = absurd (omega arith)
row_at (row ∷ rows) zero index h (here, reach) = (row, refl, here)
row_at (row ∷ rows) (suc thread) index h (here, reach) =
    row_at rows thread index (omega arith) reach

total-set :
    (rows : List (List ℕ)) (thread index j n : ℕ) (row : List ℕ)
    → get_elem? rows thread ≡ some row
    → index < length row
    → total j (set rows thread (set row index (count_of row index + n)))
      ≡ total j rows + (if index == j then n else 0)
unfolding total
total-set [] thread index j n row at h = absurd (cc)
total-set (r ∷ rows) zero index j n row at h =
    let same : r ≡ row = cc in let e = count_of-set row index j n h in rw (same, e) (ground arith)
total-set (r ∷ rows) (suc thread) index j n row at h =
    let ih = total-set rows thread index j n row at h in ground (arith, ih)

count_of-le-total :
    (rows : List (List ℕ)) (thread index : ℕ) (row : List ℕ)
    → get_elem? rows thread ≡ some row
    → count_of row index < suc (total index rows)
unfolding total
count_of-le-total [] thread index row at = absurd (cc)
count_of-le-total (r ∷ rows) zero index row at = let same : r ≡ row = cc in rw same (omega arith)
count_of-le-total (r ∷ rows) (suc thread) index row at =
    omega (arith, count_of-le-total rows thread index row at)

AllReach-set :
    (rows : List (List ℕ)) (thread index j n : ℕ) (row : List ℕ)
    → get_elem? rows thread ≡ some row
    → AllReach j rows
    → AllReach j (set rows thread (set row index n))
unfolding AllReach
AllReach-set [] thread index j n row at reach = absurd (cc)
AllReach-set (r ∷ rows) zero index j n row at (here, reach) =
    let same : r ≡ row = cc in (omega (arith, ap length same, here, length-set row index n), reach)
AllReach-set (r ∷ rows) (suc thread) index j n row at (here, reach) =
    (here, AllReach-set rows thread index j n row at reach)

get_elem?-set_other :
    (rows : List (List ℕ)) (i j : ℕ) (row : List ℕ)
    → j ≢ i
    → get_elem? (set rows i row) j ≡ get_elem? rows j
get_elem?-set_other [] i j row other = refl
get_elem?-set_other (r ∷ rows) zero zero row other = absurd (other refl)
get_elem?-set_other (r ∷ rows) zero (suc j) row other = refl
get_elem?-set_other (r ∷ rows) (suc i) zero row other = refl
get_elem?-set_other (r ∷ rows) (suc i) (suc j) row other =
    get_elem?-set_other rows i j row (λ e. other (ap suc e))

module _ (checks : Bool) where
  sum_counters_lem :
      (index : ℕ) (rows : List (List ℕ)) (sum : ℕ)
      → AllReach index rows
      → sum + total index rows < usize_mod
      → sum_counters checks index rows sum ≡ ok (sum + total index rows)
  unfolding sum_counters AllReach total
  sum_counters_lem index [] sum reach fits = ap ok (omega arith)
  sum_counters_lem index (row ∷ rows) sum (here, reach) fits =
      rw
        (
          count_at row index here,
          add_word-ok checks usize_mod sum (count_of row index) (omega arith),
          sum_counters_lem index rows (sum + count_of row index) reach (omega arith),
        )
        (ap ok (omega arith))

  get_lem :
      (c : SimpleCounter) (j : ℕ)
      → AllReach j c.counters
      → total j c.counters < usize_mod
      → get checks c j ≡ ok (total j c.counters)
  unfolding get
  get_lem c j reach fits = sum_counters_lem j c.counters 0 reach (omega arith) ∙ ap ok (omega arith)

  -- increment on one thread succeeds, adds its count to what get sums over all threads at that
  -- index and at no other, and leaves the rows of the other threads alone. The thread has a row,
  -- every row reaches to both indices, and the sums, with the count, fit a u64.
  pub increment-get :
      (c : SimpleCounter) (thread index j n : ℕ)
      → thread < length c.counters
      → AllReach index c.counters
      → AllReach j c.counters
      → total index c.counters + n < usize_mod
      → total j c.counters + n < usize_mod
      → (c' : SimpleCounter) × (sum : ℕ) × (increment checks c thread index n ≡ ok c')
        × (get checks c j ≡ ok sum)
        × (get checks c' j ≡ ok (sum + (if index == j then n else 0)))
        × ((t : ℕ) → t ≢ thread → get_elem? c'.counters t ≡ get_elem? c.counters t)
  unfolding increment
  increment-get c thread index j n lt reach reach_j fits fits_j =
      let (row, at, in_row) = row_at c.counters thread index lt reach in
      let small = count_of-le-total c.counters thread index row at in
      let after = total-set c.counters thread index j n row at in_row in
      let rows : List (List ℕ) = set c.counters thread (set row index (count_of row index + n)) in
      (
        record { counters = rows },
        total j c.counters,
        rw
            (
              at,
              count_at row index in_row,
              add_word-ok checks usize_mod (count_of row index) n (omega (arith, small, fits)),
            )
            refl,
        get_lem c j reach_j (omega arith),
        get_lem (record { counters = rows }) j
              (AllReach-set c.counters thread index j (count_of row index + n) row at reach_j)
              (ground (arith, after, fits_j))
            ∙ ap ok after,
        λ t other.
            get_elem?-set_other c.counters thread t (set row index (count_of row index + n)) other,
      )
