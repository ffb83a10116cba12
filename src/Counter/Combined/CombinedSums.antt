-- ===== src/Counter/Combined/CombinedSums.antt =====
-- The combined counters of vlib/counter.rs beside two simple counters, of packets and of bytes.
use vpp_plugin_rs.Counter.{
  usize_mod, add_word, set, SimpleCounter, read, increment, sum_counters, get,
}
use vpp_plugin_rs.Prelude.{
  ℕ, zero, suc, ◌≡◌, refl, sym, ap, Bool, some, List, [], ◌∷◌, map, get_elem?,
}
use vpp_plugin_rs.Outcome.{Outcome, ok, panicked, fault, ◌>>=◌}
use vpp_plugin_rs.Counter.Combined.{
  CombinedCount, CombinedCounter, increment_combined, sum_combined, get_combined,
}

abbrev pub packets_in : List CombinedCount → List ℕ
packets_in row = map (λ c. c.packets) row

abbrev pub bytes_in : List CombinedCount → List ℕ
bytes_in row = map (λ c. c.bytes) row

abbrev pub packets_of : CombinedCounter → SimpleCounter
packets_of c = record { counters = map packets_in c.counters }

abbrev pub bytes_of : CombinedCounter → SimpleCounter
bytes_of c = record { counters = map bytes_in c.counters }

bind-ok :
    {A B : Type 0} (x : Outcome A) (k : A → Outcome B) (y : B)
    → (x >>= k) ≡ ok y
    → (a : A) × (x ≡ ok a) × (k a ≡ ok y)
bind-ok fault k y e = absurd (cc)
bind-ok panicked k y e = absurd (cc)
bind-ok (ok a) k y e = (a, refl, e)

-- What is read from a list of fields is the field of what is read.
read-map :
    {A B : Type 0} (f : A → B) (xs : List A) (i : ℕ) (y : B)
    → read (get_elem? (map f xs) i) ≡ ok y
    → (a : A) × (get_elem? xs i ≡ some a) × (f a ≡ y)
read-map f [] i y e = absurd (cc)
read-map f (x ∷ xs) zero y e = (x, refl, cc)
read-map f (x ∷ xs) (suc i) y e = read-map f xs i y e

get_elem?-map :
    {A B : Type 0} (f : A → B) (xs : List A) (i : ℕ) (a : A)
    → get_elem? xs i ≡ some a
    → get_elem? (map f xs) i ≡ some (f a)
get_elem?-map f [] i a e = absurd (cc)
get_elem?-map f (x ∷ xs) zero a e = let same : x ≡ a = cc in rw same refl
get_elem?-map f (x ∷ xs) (suc i) a e = get_elem?-map f xs i a e

ok-injective : {A : Type 0} {a b : A} → ok a ≡ ok b → a ≡ b
ok-injective e = cc

map-set :
    {A B : Type 0} (f : A → B) (xs : List A) (i : ℕ) (a : A)
    → map f (set xs i a) ≡ set (map f xs) i (f a)
map-set f [] i a = refl
map-set f (x ∷ xs) zero a = refl
map-set f (x ∷ xs) (suc i) a = ap (λ ys. f x ∷ ys) (map-set f xs i a)

read-both :
    (row : List CombinedCount) (i x y : ℕ)
    → read (get_elem? (packets_in row) i) ≡ ok x
    → read (get_elem? (bytes_in row) i) ≡ ok y
    → get_elem? row i ≡ some (record { packets = x; bytes = y })
read-both [] i x y ex ey = absurd (cc)
read-both (c ∷ row) zero x y ex ey =
    let p : c.packets ≡ x = cc in let b : c.bytes ≡ y = cc in rw (sym p, sym b) refl
read-both (c ∷ row) (suc i) x y ex ey = read-both row i x y ex ey

module _ (checks : Bool) where
  -- Where increment succeeds on the simple counters of the packets and of the bytes, the increment
  -- of a combined counter succeeds, and its packets and bytes are what the two have become.
  pub increment_combined-increment :
      (c : CombinedCounter) (thread index packets bytes : ℕ) (p b : SimpleCounter)
      → increment checks (packets_of c) thread index packets ≡ ok p
      → increment checks (bytes_of c) thread index bytes ≡ ok b
      → (c' : CombinedCounter) × (increment_combined checks c thread index packets bytes ≡ ok c')
        × (packets_of c' ≡ p)
        × (bytes_of c' ≡ b)
  unfolding increment increment_combined
  increment_combined-increment c thread index packets bytes p b ep eb =
      let rows = c.counters in
      let (row_p, e, k) = bind-ok (read (get_elem? (map packets_in rows) thread)) _ p ep in
      let (row, at, same) = read-map packets_in rows thread row_p e in
      let ep' = rw (get_elem?-map packets_in rows thread row at) at ep in
      let eb' = rw (get_elem?-map bytes_in rows thread row at) at eb in
      let (x, ex, rx) = bind-ok (read (get_elem? (packets_in row) index)) _ p ep' in
      let (y, ey, ry) = bind-ok (read (get_elem? (bytes_in row) index)) _ b eb' in
      let (np, e₁, r₁) = bind-ok (add_word checks usize_mod x packets) _ p rx in
      let (nb, e₂, r₂) = bind-ok (add_word checks usize_mod y bytes) _ b ry in
      let count : CombinedCount = record { packets = np; bytes = nb } in
      (
        record { counters = set rows thread (set row index count) },
        rw (at, read-both row index x y ex ey, e₁, e₂) refl,
        rw
            (
              map-set packets_in rows thread (set row index count),
              map-set (λ c. c.packets) row index count,
            )
            (ok-injective r₁),
        rw
            (
              map-set bytes_in rows thread (set row index count),
              map-set (λ c. c.bytes) row index count,
            )
            (ok-injective r₂),
      )

  sum_combined_lem :
      (index : ℕ) (rows : List (List CombinedCount)) (sum : CombinedCount) (p b : ℕ)
      → sum_counters checks index (map packets_in rows) sum.packets ≡ ok p
      → sum_counters checks index (map bytes_in rows) sum.bytes ≡ ok b
      → sum_combined checks index rows sum ≡ ok (record { packets = p; bytes = b })
  unfolding sum_counters sum_combined
  sum_combined_lem index [] sum p b ep eb = cc
  sum_combined_lem index (row ∷ rows) sum p b ep eb =
      let (x, ex, rx) = bind-ok (read (get_elem? (packets_in row) index)) _ p ep in
      let (y, ey, ry) = bind-ok (read (get_elem? (bytes_in row) index)) _ b eb in
      let (sp, e₁, r₁) = bind-ok (add_word checks usize_mod sum.packets x) _ p rx in
      let (sb, e₂, r₂) = bind-ok (add_word checks usize_mod sum.bytes y) _ b ry in
      rw (read-both row index x y ex ey, e₁, e₂)
        (sum_combined_lem index rows (record { packets = sp; bytes = sb }) p b r₁ r₂)

  -- Where get succeeds on the simple counters of the packets and of the bytes, the get of a
  -- combined counter gives the two sums.
  pub get_combined-get :
      (c : CombinedCounter) (index p b : ℕ)
      → get checks (packets_of c) index ≡ ok p
      → get checks (bytes_of c) index ≡ ok b
      → get_combined checks c index ≡ ok (record { packets = p; bytes = b })
  unfolding get get_combined
  get_combined-get c index p b ep eb = sum_combined_lem index c.counters _ p b ep eb
