-- ===== src/Prelude/Bounded.antt =====
-- Lists of numbers below a bound, and lists taken apart further.
use Prim.Native.Nat.{ℕ, zero, suc, ◌+◌, ◌<◌}
use mathlib.Core.Path.{◌≡◌, refl, ap}
use mathlib.Core.List.{List, [], ◌∷◌, ◌++◌, map, reverse, reverse_aux}
use native.Mathlib.Omega.{arith}
use vpp_plugin_rs.Prelude.Lists.{length, take, drop}

pub drop-drop {ℓ} :
    {A : Type ℓ} (a b n : ℕ) (xs : List A) → n ≡ b + a → drop a (drop b xs) ≡ drop n xs
drop-drop a zero n xs e = let e' : a ≡ n = omega arith in ap (λ k. drop k xs) e'
drop-drop zero (suc b) zero [] e = refl
drop-drop (suc a) (suc b) zero [] e = refl
drop-drop zero (suc b) (suc n) [] e = refl
drop-drop (suc a) (suc b) (suc n) [] e = refl
drop-drop a (suc b) zero (x ∷ xs) e = absurd (omega arith)
drop-drop a (suc b) (suc n) (x ∷ xs) e = drop-drop a b n xs (omega arith)

pub take-split {ℓ} :
    {A : Type ℓ} (a b n : ℕ) (xs : List A) → n ≡ a + b → take n xs ≡ take a xs ++ take b (drop a xs)
take-split zero b n xs e = let e' : n ≡ b = omega arith in ap (λ k. take k xs) e'
take-split (suc a) b zero xs e = absurd (omega arith)
take-split (suc a) zero (suc n) [] e = refl
take-split (suc a) (suc b) (suc n) [] e = refl
take-split (suc a) b (suc n) (x ∷ xs) e = ap (λ r. x ∷ r) (take-split a b n xs (omega arith))

pub take-map {ℓ κ} :
    {A : Type ℓ} {B : Type κ} (f : A → B) (n : ℕ) (xs : List A)
    → take n (map f xs) ≡ map f (take n xs)
take-map f zero xs = refl
take-map f (suc n) [] = refl
take-map f (suc n) (x ∷ xs) = ap (λ r. f x ∷ r) (take-map f n xs)

pub drop-map {ℓ κ} :
    {A : Type ℓ} {B : Type κ} (f : A → B) (n : ℕ) (xs : List A)
    → drop n (map f xs) ≡ map f (drop n xs)
drop-map f zero xs = refl
drop-map f (suc n) [] = refl
drop-map f (suc n) (x ∷ xs) = drop-map f n xs

unfoldable pub AllBelow : ℕ → List ℕ → Type 0
AllBelow b [] = Unit
AllBelow b (x ∷ xs) = (x < b) × AllBelow b xs

pub AllBelow-take : (b n : ℕ) (xs : List ℕ) → AllBelow b xs → AllBelow b (take n xs)
unfolding AllBelow
AllBelow-take b zero xs h = tt
AllBelow-take b (suc n) [] h = tt
AllBelow-take b (suc n) (x ∷ xs) (h, t) = (h, AllBelow-take b n xs t)

pub AllBelow-drop : (b n : ℕ) (xs : List ℕ) → AllBelow b xs → AllBelow b (drop n xs)
unfolding AllBelow
AllBelow-drop b zero xs h = h
AllBelow-drop b (suc n) [] h = tt
AllBelow-drop b (suc n) (x ∷ xs) (h, t) = AllBelow-drop b n xs t

pub AllBelow-append :
    (b : ℕ) (xs ys : List ℕ) → AllBelow b xs → AllBelow b ys → AllBelow b (xs ++ ys)
unfolding AllBelow
AllBelow-append b [] ys h k = k
AllBelow-append b (x ∷ xs) ys (h, t) k = (h, AllBelow-append b xs ys t k)

AllBelow-reverse_aux :
    (b : ℕ) (xs ys : List ℕ) → AllBelow b xs → AllBelow b ys → AllBelow b (reverse_aux xs ys)
unfolding AllBelow
AllBelow-reverse_aux b [] ys h k = k
AllBelow-reverse_aux b (x ∷ xs) ys (h, t) k = AllBelow-reverse_aux b xs (x ∷ ys) t (h, k)

pub AllBelow-reverse : (b : ℕ) (xs : List ℕ) → AllBelow b xs → AllBelow b (reverse xs)
AllBelow-reverse b xs h = AllBelow-reverse_aux b xs [] h (unfold AllBelow in tt)

length-reverse_aux {ℓ} :
    {A : Type ℓ} (xs ys : List A) → length (reverse_aux xs ys) ≡ length xs + length ys
length-reverse_aux [] ys = omega arith
length-reverse_aux (x ∷ xs) ys = omega (arith, length-reverse_aux xs (x ∷ ys))

pub length-reverse {ℓ} : {A : Type ℓ} (xs : List A) → length (reverse xs) ≡ length xs
length-reverse xs = omega (arith, length-reverse_aux xs [])
