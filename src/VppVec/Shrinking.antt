-- ===== src/VppVec/Shrinking.antt =====
-- `pop`, `remove` and `clear` of vec.rs keep what `Spec` promises on lists.
use vpp_plugin_rs.VppVec.Reserve.{spare_of}
use vpp_plugin_rs.VppVec.SpecLaws.{get_elem?_past, init_of_snoc, remove_at_prefix, last_of_snoc}
use vpp_plugin_rs.Prelude.{
  get_elem?_prefix, cut_last, get_elem?, subst, cut, ltb→lt, eq→==, inr, inl, Bool-cases, ℕ, ◌<◌,
  ◌≡◌, refl, ap, sym, ◌∙◌, Bool, false, none, some, List, [], ◌∷◌, ◌++◌, length, arith,
  length-append, ltb,
}
use vpp_plugin_rs.VppVec.SliceLaws.{pop-snoc, bump, remove-middle, Fits, clear-Holds}
use vpp_plugin_rs.VppVec.Owned.{
  insert_slot, insert_mut, Allocator, IsVppAllocator, IsSized, len, capacity, set_len, push,
  push_end,
}
use vpp_plugin_rs.Outcome.{ok, panicked}
use vpp_plugin_rs.VppVec.Raw.{Vec}
use vpp_plugin_rs.VppVec.Spec.{panicking, Gives, giving, spec_remove, last_of, init_of, remove_at}
use vpp_plugin_rs.VppVec.Valid.{Holds, Represents}
use vpp_plugin_rs.VppVec.Slice
use vpp_plugin_rs.VppVec.Owned

module _ {ℓ} {T : Type ℓ} (checks : Bool) (a : Allocator T) (vpp : IsVppAllocator a) where
  -- pop takes the last element off, or gives None and changes nothing where there is none, unless
  -- overflow checks are on and grow_elts is 255. The vector is a valid one, and the allocator is
  -- as VPP's is documented.
  pub pop-Gives :
      (v : Vec T) (xs : List T)
      → Represents v xs
      → Fits checks (spare_of v)
      → Gives (Owned.pop checks a v) (ok (last_of xs, init_of xs))
  unfolding Owned.pop
  pop-Gives none xs h g = rw h (giving none refl)
  pop-Gives (some v) [] h g = rw (empty_pop) (giving none h)
    where
      empty_pop : Slice.pop checks v ≡ ok (none, v)
      empty_pop = unfold Slice.pop in rw (eq→== v.len 0 h.len_eq)
  pop-Gives (some v) (x ∷ xs) h g =
      let (front, last, e, m) = cut_last (x ∷ xs) (omega arith) in
      let (v', popped, held) =
        pop-snoc checks front last (subst (Holds v) e h) (bump checks v.grow_elts g) in
      rw (popped, ap last_of e ∙ last_of_snoc front last, ap init_of e ∙ init_of_snoc front last)
        (giving (some last) held)

  -- remove takes out the element at the index and moves the later ones down, or panics where there
  -- is none, unless overflow checks are on and grow_elts is 255. The vector is a valid one, and
  -- the allocator is as VPP's is documented.
  pub remove-Gives :
      (v : Vec T) (xs : List T) (i : ℕ)
      → Represents v xs
      → Fits checks (spare_of v)
      → Gives (Owned.remove checks a v i) (spec_remove xs i)
  unfolding Owned.remove
  remove-Gives none xs i h g = rw h panicking
  remove-Gives (some v) xs i h g = elim (Bool-cases (ltb i (length xs))) [
    | inl inside ↦ at_cut (cut xs i (ground arith)) (ltb→lt _ _ inside)
    | inr past ↦
        rw (get_elem?_past xs i (ground arith), past_remove (rw (← h.len_eq) at past)) panicking
  ]
    where
      past_remove : ltb i v.len ≡ false → Slice.remove checks v i ≡ panicked
      past_remove e = unfold Slice.remove in rw e

      at_cut :
          (front : List T) × (back : List T) × (xs ≡ front ++ back) × (length front ≡ i)
          → i < length xs
          → Gives (Owned.remove checks a (some v) i) (spec_remove xs i)
      at_cut (front, [], e, m) lt = absurd (omega (arith, ap length e, length-append front []))
      at_cut (front, x ∷ back, e, m) lt =
          let (v', removed, held) =
            remove-middle checks front x back (subst (Holds v) e h) (bump checks v.grow_elts g) in
          rw
            (
              ap (λ l. get_elem? l i) e ∙ get_elem?_prefix i front x back (sym m),
              ap (remove_at i) e ∙ remove_at_prefix i front x back (sym m),
              ← m,
              removed,
            )
            (giving x held)

  -- clear drops every element in order and leaves a valid empty vector. The vector is a valid one,
  -- and the allocator is as VPP's is documented.
  pub clear-Gives :
      (v : Vec T) (xs : List T) → Represents v xs → Gives (Owned.clear checks a v) (ok (xs, []))
  unfolding Owned.clear
  clear-Gives none xs h = rw h (giving [] refl)
  clear-Gives (some v) xs h =
      let (v', cleared, held) = clear-Holds checks h in rw cleared (giving xs held)
