-- ===== src/VppVec/Tests.antt =====
-- A concrete allocator, runs of the code, and each theorem at an input that meets its hypotheses.
use vpp_plugin_rs.VppVec.Script.{run-Gives, spec_run, run, Call}
use vpp_plugin_rs.VppVec.Owned.{pop, remove, push, Allocator, IsVppAllocator}
use vpp_plugin_rs.VppVec.IterLaws.{into_iter-Iterates, next_back-snoc, Iterates}
use vpp_plugin_rs.Prelude.{
  length-append, length-replicate, ap, ℕ, zero, suc, ◌-◌, ◌≤◌, ◌≡◌, refl, true, false, Option, none,
  some, List, [], ◌∷◌, ◌++◌, map, length, take, drop, replicate, arith,
}
use vpp_plugin_rs.VppVec.Growing.{insert_mut-Keeps}
use vpp_plugin_rs.VppVec.CollectLaws.{extend-Keeps}
use vpp_plugin_rs.VppVec.Cloning.{to_vpp_vec-Keeps, to_vpp_vec_unwritten}
use vpp_plugin_rs.VppVec.Collect.{IntoIter}
use vpp_plugin_rs.VppVec.Spec.{Gives, Keeps}
use vpp_plugin_rs.VppVec.Valid.{Holds}
use vpp_plugin_rs.Outcome.{ok}
use vpp_plugin_rs.VppVec.Raw.{VecRef, Vec}
use vpp_plugin_rs.VppVec.Owned
use vpp_plugin_rs.VppVec.Collect

-- Allocates exactly what is asked for, and never moves a vector to grow it in place.
abbrev padded : List (Option ℕ) → ℕ → List (Option ℕ)
padded slots n = slots ++ replicate (n - length slots) none

abbrev old_slots : Vec ℕ → List (Option ℕ)
old_slots none = []
old_slots (some v) = v.slots

abbrev exact : Allocator ℕ
exact = record {
  alloc = λ n. record { len = n; grow_elts = 0; slots = replicate n none };
  resize = λ v n. record { len = n; grow_elts = 0; slots = padded (old_slots v) n };
}

take_within : (n : ℕ) (xs ys : List (Option ℕ)) → n ≤ length xs → take n (xs ++ ys) ≡ take n xs
take_within zero xs ys h = refl
take_within (suc n) [] ys h = absurd (omega arith)
take_within (suc n) (x ∷ xs) ys h = ap (λ r. x ∷ r) (take_within n xs ys (omega arith))

exact-IsVppAllocator : IsVppAllocator exact
exact-IsVppAllocator = record {
  alloc_sized = λ n h. record {
    len_eq = refl;
    room = omega (arith, length-replicate {A = Option ℕ} n none);
    byte = omega arith;
    word = omega arith;
  };
  resize_sized = λ v n h. record {
    len_eq = refl;
    room = omega (
      arith,
      length-append (old_slots v) (replicate (n - length (old_slots v)) none),
      length-replicate {A = Option ℕ} (n - length (old_slots v)) none,
    );
    byte = omega arith;
    word = omega arith;
  };
  resize_keeps =
      λ v n h le. take_within v.len v.slots (replicate (n - length v.slots) none) (omega arith);
}

-- 1, 2 and room for one more
abbrev pair : VecRef ℕ
pair = record { len = 2; grow_elts = 1; slots = some 1 ∷ some 2 ∷ none ∷ [] }

pair-Holds : Holds pair (1 ∷ 2 ∷ [])
pair-Holds = record {
  spare = none ∷ [];
  layout = refl;
  len_eq = refl;
  room = omega arith;
  byte = omega arith;
  word = omega arith;
}

insert_mut-Keeps_example : Keeps (Owned.insert_mut true exact (some pair) 1 7) (ok (1 ∷ 7 ∷ 2 ∷ []))
insert_mut-Keeps_example =
    insert_mut-Keeps true exact exact-IsVppAllocator (some pair) (1 ∷ 2 ∷ []) 1 7 pair-Holds

abbrev calls : List (Call ℕ)
calls = Call.push 3 ∷ Call.remove 0 ∷ Call.insert 1 9 ∷ Call.pop ∷ []

run-Gives_example : Gives (run exact (some pair) calls) (spec_run (1 ∷ 2 ∷ []) calls)
run-Gives_example = run-Gives exact exact-IsVppAllocator (some pair) (1 ∷ 2 ∷ []) calls pair-Holds

extend-Keeps_example :
    Keeps (Collect.extend true exact length (some pair) (3 ∷ 4 ∷ [])) (ok (1 ∷ 2 ∷ 3 ∷ 4 ∷ []))
extend-Keeps_example =
    extend-Keeps true exact exact-IsVppAllocator length (some pair) (1 ∷ 2 ∷ []) (3 ∷ 4 ∷ [])
      (λ zs. omega arith) pair-Holds (omega arith)

to_vpp_vec-Keeps_example :
    Keeps (Collect.to_vpp_vec true exact (λ n. n) (3 ∷ 4 ∷ [])) (ok (3 ∷ 4 ∷ []))
to_vpp_vec-Keeps_example =
    to_vpp_vec-Keeps true exact exact-IsVppAllocator (λ n. n) (3 ∷ 4 ∷ []) (omega arith)

abbrev long_slice : List ℕ
long_slice = replicate 300 7

to_vpp_vec_unwritten_example :
    (v : VecRef ℕ) × (Collect.to_vpp_vec false exact (λ n. n) long_slice ≡ ok (some v))
    × (v.len ≡ length long_slice)
    × (v.slots
        ≡ map some (map (λ n. n) (take 255 long_slice))
          ++ drop 255 (exact.alloc (length long_slice)).slots)
to_vpp_vec_unwritten_example =
    to_vpp_vec_unwritten exact (λ n. n) long_slice exact-IsVppAllocator (omega arith) (omega arith)

next_back-snoc_example :
    (it' : IntoIter ℕ) × (Collect.next_back (Collect.into_iter true exact (some pair))
      ≡ ok (some 2, it'))
    × Iterates it' (1 ∷ [])
next_back-snoc_example =
    next_back-snoc (Collect.into_iter true exact (some pair)) (1 ∷ []) 2
      (into_iter-Iterates true exact (some pair) (1 ∷ 2 ∷ []) pair-Holds)
