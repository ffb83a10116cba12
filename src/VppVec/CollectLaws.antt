-- ===== src/VppVec/CollectLaws.antt =====
-- `extend`, `from_iter`, `to_vpp_vec`, `clone` and `extend_with` of vec.rs collect their items in order.
use vpp_plugin_rs.VppVec.Reserve.{len_lem, capacity_Vec, spare_of}
use vpp_plugin_rs.Prelude.{
  length-drop, ◌==◌, if◌then◌else◌, subst, length-append, lt→ltb, append_assoc, map-append,
  append-nil, ℕ, ◌+◌, ◌-◌, ◌≤◌, ◌<◌, ◌≡◌, refl, ap, ◌∙◌, Bool, Option, some, List, [], ◌∷◌, ◌++◌,
  map, length, drop, arith, min,
}
use vpp_plugin_rs.VppVec.Growing.{grown, push-Keeps}
use vpp_plugin_rs.Outcome.{usize_mod, clamp_u8, u32_mod, ok, Outcome, ◌>>=◌}
use vpp_plugin_rs.VppVec.Collect.{write_all, extend_one, extend, from_iter, push_all, write_each}
use vpp_plugin_rs.VppVec.SliceLaws.{set_len_lem}
use vpp_plugin_rs.VppVec.Owned.{IsSized, IsVppAllocator, Allocator}
use vpp_plugin_rs.VppVec.Spec.{holding, Keeps}
use vpp_plugin_rs.VppVec.Valid.{Holds, write_front, Represents}
use vpp_plugin_rs.VppVec.Raw.{VecRef, Vec}
use vpp_plugin_rs.VppVec.Owned

module _ {ℓ} {T : Type ℓ} where
  -- Consecutive writes behind the elements.
  pub write_each_lem :
      (slots : List (Option T)) (front ys : List T) (spare : List (Option T)) (i : ℕ)
      → slots ≡ map some front ++ spare
      → i ≡ length front
      → length ys ≤ length spare
      → write_each slots i ys ≡ ok (map some (front ++ ys) ++ drop (length ys) spare)
  unfolding write_each
  write_each_lem slots front [] spare i e m h = ap ok (e ∙ simp append-nil)
  write_each_lem slots front (y ∷ ys) [] i e m h = absurd (omega arith)
  write_each_lem slots front (y ∷ ys) (s ∷ spare) i e m h =
      rw (write_front slots front s spare i y e m) (
        write_each_lem (map some front ++ some y ∷ spare) (front ++ y ∷ []) ys spare (i + 1)
          (simp (map-append, append_assoc)) (omega (arith, length-append front (y ∷ [])))
          (omega arith)
        ∙ ap (λ l. ok (map some l ++ drop (length ys) spare)) (append_assoc front (y ∷ []) ys))

  pub write_all_lem :
      (v : VecRef T) (front ys : List T) (spare : List (Option T)) (i : ℕ)
      → v.slots ≡ map some front ++ spare
      → i ≡ length front
      → length ys ≤ length spare
      → write_all (some v) i ys
        ≡ ok (some (record v { slots = map some (front ++ ys) ++ drop (length ys) spare }))
  unfolding write_all
  write_all_lem v front [] spare i e m h = rw (write_each_lem v.slots front [] spare i e m h)
  write_all_lem v front (y ∷ ys) spare i e m h =
      rw (write_each_lem v.slots front (y ∷ ys) spare i e m h)

  pub Keeps-bind :
      {m : Outcome (Vec T)} {ys zs : List T} {f : Vec T → Outcome (Vec T)}
      → Keeps m (ok ys)
      → ((v : Vec T) → Represents v ys → Keeps (f v) (ok zs))
      → Keeps (m >>= f) (ok zs)
  Keeps-bind (holding {v} h) k = k v h

-- `set_len` on a vector whose first slots hold `xs`, up to the capacity that the header counts.
pub set_len-Keeps {ℓ} :
    {T : Type ℓ} (checks : Bool) (a : Allocator T) (v : VecRef T) (xs : List T)
    (spare : List (Option T)) (n : ℕ)
    → v.slots ≡ map some xs ++ spare
    → n ≡ length xs
    → v.len + v.grow_elts < u32_mod
    → n ≤ v.len + v.grow_elts
    → v.len + v.grow_elts ≤ n + length spare
    → Keeps (Owned.set_len checks a (some v) n) (ok xs)
unfolding Owned.set_len
set_len-Keeps checks a v xs spare n e m word le room = rw (set_len_lem checks v n word le) (
    holding (record {
      spare = spare;
      layout = e;
      len_eq = m;
      room = ground arith;
      byte = ground arith;
      word = ground arith;
    }))

module _ {ℓ} {T : Type ℓ} (checks : Bool) (a : Allocator T) (vpp : IsVppAllocator a) where
  -- A new vector is empty, and its header counts the capacity asked for, up to 255.
  pub with_capacity_lem :
      (n : ℕ)
      → n < u32_mod
      → (v : VecRef T) × (Owned.with_capacity checks a n ≡ ok (some v))
        × Holds v []
        × (v.grow_elts ≡ clamp_u8 (n + (a.alloc n).grow_elts))
        × (v.slots ≡ (a.alloc n).slots)
  unfolding Owned.with_capacity Owned.set_len
  with_capacity_lem n small =
      (v, rw (set_len_lem checks fresh 0 word (omega arith)), held, ap clamp_u8 total, refl)
    where
      fresh : VecRef T
      fresh = a.alloc n

      s : IsSized fresh n
      s = vpp.alloc_sized n small

      word : fresh.len + fresh.grow_elts < u32_mod
      word = omega (arith, s.len_eq, s.word)

      total : fresh.len + fresh.grow_elts - 0 ≡ n + fresh.grow_elts
      total = omega (arith, s.len_eq)

      v : VecRef T
      v = record fresh { len = 0; grow_elts = clamp_u8 (fresh.len + fresh.grow_elts - 0) }

      held : Holds v []
      held = record {
        spare = fresh.slots;
        layout = refl;
        len_eq = refl;
        room = ground (arith, s.len_eq, s.room);
        byte = ground arith;
        word = ground (arith, word);
      }

  pub push_all-Keeps :
      (v : Vec T) (xs ys : List T)
      → Represents v xs
      → length xs + length ys < u32_mod
      → Keeps (push_all checks a v ys) (ok (xs ++ ys))
  unfolding push_all
  push_all-Keeps v xs [] h small = rw append-nil (holding h)
  push_all-Keeps v xs (y ∷ ys) h small =
      Keeps-bind
        (rw (lt→ltb (length xs + 1) u32_mod (omega arith)) at (push-Keeps checks a vpp v xs y h))
        λ w k.
          subst (λ l. Keeps (push_all checks a w ys) (ok l)) (append_assoc xs (y ∷ []) ys)
            (push_all-Keeps w (xs ++ y ∷ []) ys k (omega (arith, length-append xs (y ∷ []))))

  -- from_iter collects the items in order whatever size the iterator hints at, both below 2^32.
  -- The allocator is as VPP's is documented.
  pub from_iter-Keeps :
      (size : ℕ) (items : List T)
      → size < u32_mod
      → length items < u32_mod
      → Keeps (from_iter checks a size items) (ok items)
  unfolding from_iter
  from_iter-Keeps size items hs hi =
      let (v, e, held, _, _) = with_capacity_lem size hs in
      rw e (push_all-Keeps (some v) [] items held (omega arith))

  -- One round of `extend`: where the header counts no spare element, room is made for the item and
  -- for as many as the iterator says will follow.
  pub extend_one-Keeps :
      (lower : ℕ) (v : Vec T) (xs : List T) (x : T)
      → Represents v xs
      → length xs + lower + 1 < u32_mod
      → Keeps (extend_one checks a lower v x) (ok (xs ++ x ∷ []))
  unfolding extend_one
  extend_one-Keeps lower v xs x h small =
      let (v', e, held, more) = made v h in
      rw (capacity_Vec checks a vpp v xs h, e, len_lem checks a vpp v xs h) (written v' held more)
    where
      made :
          (w : Vec T)
          → Represents w xs
          → (v' : VecRef T) × ((if Owned.len checks a w == length xs + spare_of w
                then Owned.reserve checks a w (min (lower + 1) (usize_mod - 1))
                else ok w)
              ≡ ok (some v'))
            × Holds v' xs
            × (0 < v'.grow_elts)
      made w k =
          grown checks a vpp w xs (min (lower + 1) (usize_mod - 1)) k (omega arith) (omega arith)

      written :
          (w : VecRef T)
          → Holds w xs
          → 0 < w.grow_elts
          → Keeps
              (write_all (some w) (length xs) (x ∷ []) >>= λ v₂.
                Owned.set_len checks a v₂ (length xs + 1))
              (ok (xs ++ x ∷ []))
      written w k g =
          rw (write_all_lem w xs (x ∷ []) k.spare (length xs) k.layout refl (omega (arith, k.room)))
            (set_len-Keeps checks a _ (xs ++ x ∷ []) (drop 1 k.spare) (length xs + 1) refl
              (omega (arith, length-append xs (x ∷ []))) k.word
              (omega (arith, length-append xs (x ∷ []), k.len_eq))
              (omega (arith, k.room, k.len_eq, length-drop 1 k.spare)))

  -- extend appends the items of an iterator in order, in as many rounds of reserve and write as it
  -- takes, if the iterator's lower bounds are right and the elements number less than 2^32. The
  -- vector is a valid one, and the allocator is as VPP's is documented.
  pub extend-Keeps :
      (lower : List T → ℕ) (v : Vec T) (xs ys : List T)
      → ((zs : List T) → lower zs ≤ length zs)
      → Represents v xs
      → length xs + length ys < u32_mod
      → Keeps (extend checks a lower v ys) (ok (xs ++ ys))
  unfolding extend
  extend-Keeps lower v xs [] honest h small = rw append-nil (holding h)
  extend-Keeps lower v xs (y ∷ ys) honest h small =
      Keeps-bind (extend_one-Keeps (lower ys) v xs y h (omega (arith, honest ys))) λ w k.
        subst (λ l. Keeps (extend checks a lower w ys) (ok l)) (append_assoc xs (y ∷ []) ys)
          (extend-Keeps lower w (xs ++ y ∷ []) ys honest k
            (omega (arith, length-append xs (y ∷ []))))
