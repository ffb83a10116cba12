-- ===== src/TimerWheel/Cells.antt =====
-- A slab that is a list of cells and uses none twice.
use vpp_plugin_rs.Prelude.{
  subst, ap, ℕ, zero, suc, ◌≡◌, refl, List, [], ◌∷◌, ◌++◌, Option, none, some, set, length,
  if◌then◌else◌, ◌==◌, arith,
}
use vpp_plugin_rs.TimerWheel.Slab.{Slab, IsSlab}

module _ {E : Type 0} where
  abbrev pub cell : List (Option E) → ℕ → Option E
  cell [] i = none
  cell (x ∷ xs) zero = x
  cell (x ∷ xs) (suc i) = cell xs i

  cell-append :
      (xs : List (Option E)) (e : E) (j : ℕ)
      → cell (xs ++ some e ∷ []) j ≡ (if length xs == j then some e else cell xs j)
  cell-append [] e zero = refl
  cell-append [] e (suc j) = ground arith
  cell-append (x ∷ xs) e zero = ground arith
  cell-append (x ∷ xs) e (suc j) = let ih = cell-append xs e j in ground (arith, ih)

  cell-past : (xs : List (Option E)) → cell xs (length xs) ≡ none
  cell-past [] = refl
  cell-past (x ∷ xs) = cell-past xs

  cell-set :
      (xs : List (Option E)) (i : ℕ) (old : E) (v : Option E) (j : ℕ)
      → cell xs i ≡ some old
      → cell (set xs i v) j ≡ (if i == j then v else cell xs j)
  cell-set [] i old v j h = absurd (cc)
  cell-set (x ∷ xs) zero old v zero h = refl
  cell-set (x ∷ xs) zero old v (suc j) h = ground arith
  cell-set (x ∷ xs) (suc i) old v zero h = ground arith
  cell-set (x ∷ xs) (suc i) old v (suc j) h = let ih = cell-set xs i old v j h in ground (arith, ih)

abbrev pub cells : {E : Type 0} → Slab E (List (Option E))
cells = record {
  new = [];
  get = cell;
  insert = λ s e. (length s, s ++ some e ∷ []);
  put = λ s i e. set s i (some e);
  remove = λ s i. set s i none;
}

pub cells-IsSlab : {E : Type 0} → IsSlab (cells {E = E})
cells-IsSlab = record {
  get_new = λ j. refl;
  get_insert = λ s e key s' p j.
      let at_key : length s ≡ key = ap (λ x. x.0) p in
      let after : s ++ some e ∷ [] ≡ s' = ap (λ x. x.1) p in
      subst (λ t. cell t j ≡ (if key == j then some e else cell s j)) after
        (subst (λ k. cell (s ++ some e ∷ []) j ≡ (if k == j then some e else cell s j)) at_key
          (cell-append s e j));
  vacant = λ s e key s' p. subst (λ k. cell s k ≡ none) (ap (λ x. x.0) p) (cell-past s);
  get_put = λ s i old e j at. cell-set s i old (some e) j at;
  get_remove = λ s i old j at. cell-set s i old none j at;
}
