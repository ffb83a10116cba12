-- ===== src/VppVec/Script.antt =====
-- Sequences of calls on a vector, in a build without overflow checks, against the same calls on a
-- list. (With the checks, `pop` and `remove` panic where `grow_elts` is 255: see `Shrinking`.)
use vpp_plugin_rs.VppVec.Shrinking.{clear-Gives, remove-Gives, pop-Gives}
use vpp_plugin_rs.VppVec.Growing.{insert_mut-Keeps, push-Keeps}
use vpp_plugin_rs.Prelude.{inl, ℕ, refl, false, Option, none, some, List, [], ◌∷◌, ◌++◌}
use vpp_plugin_rs.VppVec.Spec.{
  spec_remove, spec_insert, giving, init_of, Keeps, Gives, last_of, spec_push, holding, panicking,
}
use vpp_plugin_rs.VppVec.Valid.{Represents}
use vpp_plugin_rs.VppVec.Owned.{IsVppAllocator, Allocator}
use vpp_plugin_rs.VppVec.Raw.{Vec}
use vpp_plugin_rs.Outcome.{Outcome, ok, ◌>>=◌}
use vpp_plugin_rs.VppVec.Owned

pub data Call {ℓ} (T : Type ℓ) : Type ℓ where
  push : T → Call T
  pop : Call T
  insert : ℕ → T → Call T
  remove : ℕ → Call T
  clear : Call T

abbrev pub taken {ℓ} : {A : Type ℓ} → Option A → List A
taken none = []
taken (some x) = x ∷ []

module _ {ℓ} {T : Type ℓ} where
  -- A call, with the elements that it gives back or drops.
  unfoldable pub call : Allocator T → Vec T → Call T → Outcome (List T × Vec T)
  call a v (push x) = do v' ← Owned.push false a v x; ok ([], v')
  call a v pop = do (x, v') ← Owned.pop false a v; ok (taken x, v')
  call a v (insert i x) = do v' ← Owned.insert_mut false a v i x; ok ([], v')
  call a v (remove i) = do (x, v') ← Owned.remove false a v i; ok (x ∷ [], v')
  call a v clear = Owned.clear false a v

  unfoldable pub spec_call : List T → Call T → Outcome (List T × List T)
  spec_call xs (push x) = do xs' ← spec_push xs x; ok ([], xs')
  spec_call xs pop = ok (taken (last_of xs), init_of xs)
  spec_call xs (insert i x) = do xs' ← spec_insert xs i x; ok ([], xs')
  spec_call xs (remove i) = do (x, xs') ← spec_remove xs i; ok (x ∷ [], xs')
  spec_call xs clear = ok (xs, [])

  unfoldable pub run : Allocator T → Vec T → List (Call T) → Outcome (List T × Vec T)
  run a v [] = ok ([], v)
  run a v (c ∷ cs) = do (out, v') ← call a v c; (rest, w) ← run a v' cs; ok (out ++ rest, w)

  unfoldable pub spec_run : List T → List (Call T) → Outcome (List T × List T)
  spec_run xs [] = ok ([], xs)
  spec_run xs (c ∷ cs) = do
    (out, xs') ← spec_call xs c
    (rest, ys) ← spec_run xs' cs
    ok (out ++ rest, ys)

Gives-bind {ℓ} :
    {T A B : Type ℓ} {m : Outcome (A × Vec T)} {s : Outcome (A × List T)}
    (f : A × Vec T → Outcome (B × Vec T)) (g : A × List T → Outcome (B × List T))
    → Gives m s
    → ((x : A) (v : Vec T) (xs : List T) → Represents v xs → Gives (f (x, v)) (g (x, xs)))
    → Gives (m >>= f) (s >>= g)
Gives-bind f g (giving x {v} {xs} h) k = k x v xs h
Gives-bind f g panicking k = panicking

Keeps-Gives {ℓ} :
    {T A : Type ℓ} {m : Outcome (Vec T)} {s : Outcome (List T)} (x : A)
    → Keeps m s
    → Gives (m >>= λ v. ok (x, v)) (s >>= λ xs. ok (x, xs))
Keeps-Gives x (holding h) = giving x h
Keeps-Gives x panicking = panicking

module _ {ℓ} {T : Type ℓ} (a : Allocator T) (vpp : IsVppAllocator a) where
  call-Gives :
      (v : Vec T) (xs : List T) (c : Call T) → Represents v xs → Gives (call a v c) (spec_call xs c)
  unfolding call spec_call
  call-Gives v xs (push x) h = Keeps-Gives [] (push-Keeps false a vpp v xs x h)
  call-Gives v xs pop h =
      Gives-bind (λ (x, w). ok (taken x, w)) (λ (x, ys). ok (taken x, ys))
        (pop-Gives false a vpp v xs h (inl refl)) λ x w ys k. giving (taken x) k
  call-Gives v xs (insert i x) h = Keeps-Gives [] (insert_mut-Keeps false a vpp v xs i x h)
  call-Gives v xs (remove i) h =
      Gives-bind (λ (x, w). ok (x ∷ [], w)) (λ (x, ys). ok (x ∷ [], ys))
        (remove-Gives false a vpp v xs i h (inl refl)) λ x w ys k. giving (x ∷ []) k
  call-Gives v xs clear h = clear-Gives false a vpp v xs h

  -- Every sequence of push, pop, insert_mut, remove and clear on a vector, in a release build,
  -- gives what the same calls give on a list, and panics where those are out of bounds or too
  -- long. The vector is a valid one, and the allocator is as VPP's is documented.
  pub run-Gives :
      (v : Vec T) (xs : List T) (cs : List (Call T))
      → Represents v xs
      → Gives (run a v cs) (spec_run xs cs)
  unfolding run spec_run
  run-Gives v xs [] h = giving [] h
  run-Gives v xs (c ∷ cs) h =
      Gives-bind (λ (out, w). run a w cs >>= λ (rest, u). ok (out ++ rest, u))
        (λ (out, ys). spec_run ys cs >>= λ (rest, zs). ok (out ++ rest, zs)) (call-Gives v xs c h)
        λ out w ys k.
          Gives-bind (λ (rest, u). ok (out ++ rest, u)) (λ (rest, zs). ok (out ++ rest, zs))
            (run-Gives w ys cs k) λ rest u zs l. giving (out ++ rest) l
