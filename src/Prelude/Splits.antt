-- ===== src/Prelude/Splits.antt =====
-- Lists cut at a position: what `take`, `drop`, `get_elem?` and `set` do at the length of a prefix.
use Prim.Native.Nat.{ℕ, zero, suc, ◌+◌, ◌≤◌, ◌<◌}
use mathlib.Core.Path.{◌≡◌, refl, ap, sym}
use mathlib.Core.List.{List, [], ◌∷◌, ◌++◌}
use mathlib.Core.Option.{some}
use native.Mathlib.Omega.{arith}
use vpp_plugin_rs.Prelude.Lists.{length, get_elem?, set, take, drop, length-take, take-append-drop}

module _ {ℓ} {A : Type ℓ} where
  pub take_prefix : (n : ℕ) (xs ys : List A) → n ≡ length xs → take n (xs ++ ys) ≡ xs
  take_prefix zero [] ys e = refl
  take_prefix (suc n) [] ys e = absurd (omega arith)
  take_prefix zero (x ∷ xs) ys e = absurd (omega arith)
  take_prefix (suc n) (x ∷ xs) ys e = ap (λ r. x ∷ r) (take_prefix n xs ys (omega arith))

  pub drop_prefix : (n : ℕ) (xs ys : List A) → n ≡ length xs → drop n (xs ++ ys) ≡ ys
  drop_prefix zero [] ys e = refl
  drop_prefix (suc n) [] ys e = absurd (omega arith)
  drop_prefix zero (x ∷ xs) ys e = absurd (omega arith)
  drop_prefix (suc n) (x ∷ xs) ys e = drop_prefix n xs ys (omega arith)

  pub get_elem?_prefix :
      (n : ℕ) (xs : List A) (y : A) (ys : List A)
      → n ≡ length xs
      → get_elem? (xs ++ y ∷ ys) n ≡ some y
  get_elem?_prefix zero [] y ys e = refl
  get_elem?_prefix (suc n) [] y ys e = absurd (omega arith)
  get_elem?_prefix zero (x ∷ xs) y ys e = absurd (omega arith)
  get_elem?_prefix (suc n) (x ∷ xs) y ys e = get_elem?_prefix n xs y ys (omega arith)

  pub set_prefix :
      (n : ℕ) (xs : List A) (y : A) (ys : List A) (v : A)
      → n ≡ length xs
      → set (xs ++ y ∷ ys) n v ≡ xs ++ v ∷ ys
  set_prefix zero [] y ys v e = refl
  set_prefix (suc n) [] y ys v e = absurd (omega arith)
  set_prefix zero (x ∷ xs) y ys v e = absurd (omega arith)
  set_prefix (suc n) (x ∷ xs) y ys v e = ap (λ r. x ∷ r) (set_prefix n xs y ys v (omega arith))

  -- A list cut at an index that is not past its end.
  pub cut :
      (xs : List A) (n : ℕ)
      → n ≤ length xs
      → (front : List A) × (back : List A) × (xs ≡ front ++ back) × (length front ≡ n)
  cut xs n h = (take n xs, drop n xs, sym (take-append-drop n xs), omega (arith, length-take n xs))

  -- A list that is not empty, cut before its last element.
  pub cut_last :
      (xs : List A)
      → 0 < length xs
      → (front : List A) × (last : A) × (xs ≡ front ++ last ∷ []) × (length front + 1 ≡ length xs)
  cut_last [] h = absurd (omega arith)
  cut_last (x ∷ []) h = ([], x, refl, omega arith)
  cut_last (x ∷ y ∷ ys) h =
      let (front, last, e, m) = cut_last (y ∷ ys) (omega arith) in
      (x ∷ front, last, ap (λ r. x ∷ r) e, omega arith)

  pub drop_past : (i n : ℕ) (xs ys : List A) → i ≡ length xs + n → drop i (xs ++ ys) ≡ drop n ys
  drop_past i n [] ys e = let e' : i ≡ n = omega arith in ap (λ k. drop k ys) e'
  drop_past zero n (x ∷ xs) ys e = absurd (omega arith)
  drop_past (suc i) n (x ∷ xs) ys e = drop_past i n xs ys (omega arith)

  pub take_past :
      (i n : ℕ) (xs ys : List A) → i ≡ length xs + n → take i (xs ++ ys) ≡ xs ++ take n ys
  take_past i n [] ys e = let e' : i ≡ n = omega arith in ap (λ k. take k ys) e'
  take_past zero n (x ∷ xs) ys e = absurd (omega arith)
  take_past (suc i) n (x ∷ xs) ys e = ap (λ r. x ∷ r) (take_past i n xs ys (omega arith))

  pub drop_within : (n : ℕ) (xs ys : List A) → n ≤ length xs → drop n (xs ++ ys) ≡ drop n xs ++ ys
  drop_within zero xs ys h = refl
  drop_within (suc n) [] ys h = absurd (omega arith)
  drop_within (suc n) (x ∷ xs) ys h = drop_within n xs ys (omega arith)
