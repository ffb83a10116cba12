-- ===== src/VppVec/SpecLaws.antt =====
-- The promises on lists of vec.rs, at a list that is cut at an index.
use vpp_plugin_rs.Prelude.{
  get_elem?, ℕ, zero, suc, ◌≤◌, ◌≡◌, refl, ap, none, some, List, [], ◌∷◌, ◌++◌, length, arith,
}
use vpp_plugin_rs.VppVec.Spec.{last_of, init_of, insert_at, remove_at}

pub last_of_snoc {ℓ} : {A : Type ℓ} (front : List A) (x : A) → last_of (front ++ x ∷ []) ≡ some x
last_of_snoc [] x = refl
last_of_snoc (y ∷ []) x = refl
last_of_snoc (y ∷ z ∷ ys) x = last_of_snoc (z ∷ ys) x

pub init_of_snoc {ℓ} : {A : Type ℓ} (front : List A) (x : A) → init_of (front ++ x ∷ []) ≡ front
init_of_snoc [] x = refl
init_of_snoc (y ∷ []) x = refl
init_of_snoc (y ∷ z ∷ ys) x = ap (λ r. y ∷ r) (init_of_snoc (z ∷ ys) x)

pub get_elem?_past {ℓ} : {A : Type ℓ} (xs : List A) (i : ℕ) → length xs ≤ i → get_elem? xs i ≡ none
get_elem?_past [] i h = refl
get_elem?_past (x ∷ xs) zero h = absurd (omega arith)
get_elem?_past (x ∷ xs) (suc i) h = get_elem?_past xs i (omega arith)

pub insert_at_prefix {ℓ} :
    {A : Type ℓ} (i : ℕ) (front : List A) (x : A) (back : List A)
    → i ≡ length front
    → insert_at i x (front ++ back) ≡ front ++ x ∷ back
insert_at_prefix zero [] x back e = refl
insert_at_prefix (suc i) [] x back e = absurd (omega arith)
insert_at_prefix zero (y ∷ ys) x back e = absurd (omega arith)
insert_at_prefix (suc i) (y ∷ ys) x back e =
    ap (λ r. y ∷ r) (insert_at_prefix i ys x back (omega arith))

pub remove_at_prefix {ℓ} :
    {A : Type ℓ} (i : ℕ) (front : List A) (x : A) (back : List A)
    → i ≡ length front
    → remove_at i (front ++ x ∷ back) ≡ front ++ back
remove_at_prefix zero [] x back e = refl
remove_at_prefix (suc i) [] x back e = absurd (omega arith)
remove_at_prefix zero (y ∷ ys) x back e = absurd (omega arith)
remove_at_prefix (suc i) (y ∷ ys) x back e =
    ap (λ r. y ∷ r) (remove_at_prefix i ys x back (omega arith))
