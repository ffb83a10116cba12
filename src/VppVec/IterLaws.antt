-- ===== src/VppVec/IterLaws.antt =====
-- `IntoIter` of vec.rs gives the elements of the vector from either end.
use vpp_plugin_rs.VppVec.Valid.{read_all_front, length-some, read_front, Represents}
use vpp_plugin_rs.Prelude.{
  drop_prefix, append_assoc, map-append, ne→==_false, length-append, lt→ltb, eq→==, ◌+◌, ◌-◌, ◌≡◌,
  refl, ap, sym, ◌∙◌, Bool, Option, none, some, List, [], ◌∷◌, ◌++◌, map, length, drop, arith,
}
use vpp_plugin_rs.VppVec.Collect.{
  is_allocated, IntoIter, next, next_back, into_iter, drop_iter, memory,
}
use vpp_plugin_rs.VppVec.Raw.{Vec}
use vpp_plugin_rs.VppVec.Owned.{Allocator}
use vpp_plugin_rs.Outcome.{ok}
use vpp_plugin_rs.VppVec.Owned

-- The elements `xs` are left, behind those that were already given from the front.
pub record Iterates {ℓ} {T : Type ℓ} (it : IntoIter T) (xs : List T) : Type ℓ where
  pub given : List T
  pub behind : List (Option T)
  pub layout : memory it.start_ptr ≡ map some (given ++ xs) ++ behind
  pub ptr_eq : it.ptr ≡ length given
  pub len_eq : it.len ≡ length xs
  pub end_eq : it.end_ptr ≡ length given + length xs

module _ {ℓ} {T : Type ℓ} where
  pub next-nil : (it : IntoIter T) → Iterates it [] → next it ≡ ok (none, it)
  unfolding next
  next-nil it h = rw (eq→== it.len 0 h.len_eq)

  -- `next` gives the first element left.
  pub next-cons :
      (it : IntoIter T) (x : T) (xs : List T)
      → Iterates it (x ∷ xs)
      → (it' : IntoIter T) × (next it ≡ ok (some x, it')) × Iterates it' xs
  unfolding next
  next-cons it x xs h = (
    it',
    rw (
      ne→==_false it.len 0 (omega (arith, h.len_eq)),
      read_front (memory it.start_ptr) h.given x (map some xs ++ h.behind) it.ptr
          (h.layout ∙ simp (map-append, append_assoc)) h.ptr_eq,
    ),
    record {
      given = h.given ++ x ∷ [];
      behind = h.behind;
      layout = h.layout ∙ simp (append_assoc);
      ptr_eq = omega (arith, h.ptr_eq, length-append h.given (x ∷ []));
      len_eq = omega (arith, h.len_eq);
      end_eq = omega (arith, h.end_eq, length-append h.given (x ∷ []));
    },
  )
    where
      it' : IntoIter T
      it' = record it { ptr = it.ptr + 1; len = it.len - 1 }

  -- The owning iterator gives its last element from the back and keeps the others. The iterator is
  -- over initialised elements.
  pub next_back-snoc :
      (it : IntoIter T) (xs : List T) (x : T)
      → Iterates it (xs ++ x ∷ [])
      → (it' : IntoIter T) × (next_back it ≡ ok (some x, it')) × Iterates it' xs
  unfolding next_back
  next_back-snoc it xs x h = (
    it',
    rw (
      ne→==_false it.len 0 (omega (arith, h.len_eq, total)),
      read_front (memory it.start_ptr) (h.given ++ xs) x h.behind (it.end_ptr - 1)
          (h.layout ∙ simp (map-append, append_assoc))
          (omega (arith, h.end_eq, total, length-append h.given xs)),
    ),
    record {
      given = h.given;
      behind = some x ∷ h.behind;
      layout = h.layout ∙ simp (map-append, append_assoc);
      ptr_eq = h.ptr_eq;
      len_eq = omega (arith, h.len_eq, total);
      end_eq = omega (arith, h.end_eq, total);
    },
  )
    where
      total : length (xs ++ x ∷ []) ≡ length xs + 1
      total = length-append xs (x ∷ [])

      it' : IntoIter T
      it' = record it { end_ptr = it.end_ptr - 1; len = it.len - 1 }

  pub into_iter-Iterates :
      (checks : Bool) (a : Allocator T) (v : Vec T) (xs : List T)
      → Represents v xs
      → Iterates (into_iter checks a v) xs
  unfolding into_iter Owned.len vpp_plugin_rs.VppVec.Slice.len
  into_iter-Iterates checks a none xs h = rw h (record {
    given = [];
    behind = [];
    layout = refl;
    ptr_eq = refl;
    len_eq = refl;
    end_eq = omega arith;
  })
  into_iter-Iterates checks a (some v) xs h = record {
    given = [];
    behind = h.spare;
    layout = h.layout;
    ptr_eq = refl;
    len_eq = h.len_eq;
    end_eq = omega (arith, h.len_eq);
  }

  -- Dropping the iterator drops the elements left, in order.
  pub drop_iter-Iterates :
      (it : IntoIter T) (xs : List T)
      → Iterates it xs
      → drop_iter it ≡ ok (xs, is_allocated it.start_ptr)
  unfolding drop_iter
  drop_iter-Iterates it [] h = rw (h.len_eq)
  drop_iter-Iterates it (x ∷ xs) h = rw (
    lt→ltb 0 it.len (omega (arith, h.len_eq)),
    left,
    read_all_front (x ∷ xs) h.behind it.len h.len_eq,
  )
    where
      left : drop it.ptr (memory it.start_ptr) ≡ map some (x ∷ xs) ++ h.behind
      left =
          ap (drop it.ptr) (h.layout ∙ simp (map-append, append_assoc))
          ∙ drop_prefix it.ptr (map some h.given) (map some (x ∷ xs) ++ h.behind)
              (h.ptr_eq ∙ sym (length-some h.given))
