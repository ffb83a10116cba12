-- ===== src/VppVec/SliceLaws.antt =====
-- What `set_len`, `pop`, `remove` and `clear` of `VecRef` do to the list that is held.
use vpp_plugin_rs.Prelude.{
  inr, ◌%◌, ◌⊎◌, inl, length-drop, ℕ, ◌+◌, ◌-◌, ◌≤◌, ◌<◌, ◌≡◌, refl, ap, ◌∙◌, Bool, false, Option,
  some, List, [], ◌∷◌, ◌++◌, map, length, drop, arith, append_assoc, length-append, map-append,
  lt→ltb, ◌==◌, ne→==_false,
}
use vpp_plugin_rs.VppVec.Valid.{copy_down, Holds, length-some, read_front, read_all_front}
use vpp_plugin_rs.Outcome.{ok, u8_mod, u32_mod, add_word, clamp_u8}
use vpp_plugin_rs.Outcome.Laws.{add_word-ok}
use vpp_plugin_rs.VppVec.Raw.{VecRef, read, copy}
use vpp_plugin_rs.VppVec.Slice.{capacity, as_slice, set_len, pop, remove, clear}

-- `grow_elts += 1` does not panic: overflow is unchecked, or there is none. The count that it leaves
-- is a u8, and at most one more than before.
pub record Bumped (checks : Bool) (grow : ℕ) : Type 0 where
  pub value : ℕ
  pub computed : add_word checks u8_mod grow 1 ≡ ok value
  pub below : value ≤ grow + 1
  pub small : value < u8_mod

abbrev pub Fits : Bool → ℕ → Type 0
Fits checks grow = (checks ≡ false) ⊎ (grow + 1 < u8_mod)

pub bump : (checks : Bool) (grow : ℕ) → Fits checks grow → Bumped checks grow
bump checks grow (inl e) = record {
  value = (grow + 1) % u8_mod;
  computed = rw e (ground arith);
  below = omega arith;
  small = omega arith;
}
bump checks grow (inr h) = record {
  value = grow + 1;
  computed = add_word-ok checks u8_mod grow 1 h;
  below = omega arith;
  small = h;
}

module _ {ℓ} {T : Type ℓ} (checks : Bool) where
  pub set_len_lem :
      (v : VecRef T) (n : ℕ)
      → v.len + v.grow_elts < u32_mod
      → n ≤ v.len + v.grow_elts
      → set_len checks v n
        ≡ ok (record v { len = n; grow_elts = clamp_u8 (v.len + v.grow_elts - n) })
  unfolding set_len
  set_len_lem v n w h = ground arith

  pub capacity_lem :
      (v : VecRef T) → v.len + v.grow_elts < u32_mod → capacity checks v ≡ ok (v.len + v.grow_elts)
  unfolding capacity
  capacity_lem v w = add_word-ok checks u32_mod v.len v.grow_elts w

  pub as_slice_lem : {v : VecRef T} {xs : List T} → Holds v xs → as_slice checks v ≡ ok xs
  unfolding as_slice
  as_slice_lem {v} {xs} h = rw (h.layout, read_all_front xs h.spare v.len h.len_eq)

  -- `pop` takes the last element off.
  pub pop-snoc :
      {v : VecRef T} (front : List T) (x : T)
      → Holds v (front ++ x ∷ [])
      → Bumped checks v.grow_elts
      → (v' : VecRef T) × (pop checks v ≡ ok (some x, v')) × Holds v' front
  unfolding pop
  pop-snoc {v} front x h g = (v', rw (nonempty, g.computed, got), held)
    where
      v' : VecRef T
      v' = record v { len = v.len - 1; grow_elts = g.value }

      counted : v.len ≡ length front + 1
      counted = omega (arith, h.len_eq, length-append front (x ∷ []))

      nonempty : (v.len == 0) ≡ false
      nonempty = ne→==_false v.len 0 (omega (arith, counted))

      shape : v.slots ≡ map some front ++ some x ∷ h.spare
      shape = h.layout ∙ simp (map-append, append_assoc)

      got : read v.slots (v.len - 1) ≡ ok x
      got = read_front v.slots front x h.spare (v.len - 1) shape (omega (arith, counted))

      held : Holds v' front
      held = record {
        spare = some x ∷ h.spare;
        layout = shape;
        len_eq = omega (arith, counted);
        room = omega (arith, h.room, g.below);
        byte = g.small;
        word = omega (arith, counted, h.word, g.below);
      }

  -- `clear` drops the elements in order, and leaves the vector empty.
  pub clear-Holds :
      {v : VecRef T} {xs : List T}
      → Holds v xs
      → (v' : VecRef T) × (clear checks v ≡ ok (xs, v')) × Holds v' []
  unfolding clear
  clear-Holds {v} {xs} h =
      (v', rw (as_slice_lem h, lt→ltb (v.len + v.grow_elts) u32_mod h.word), held)
    where
      v' : VecRef T
      v' = record v { len = 0; grow_elts = clamp_u8 (v.len + v.grow_elts) }

      total : length v.slots ≡ v.len + length h.spare
      total = omega (
        arith,
        h.len_eq,
        length-some xs,
        ap length h.layout,
        length-append (map {B = Option T} some xs) h.spare,
      )

      held : Holds v' []
      held = record {
        spare = v.slots;
        layout = refl;
        len_eq = refl;
        room = ground (arith, total, h.room);
        byte = ground arith;
        word = ground arith;
      }

  -- `remove` takes out the element at `i` and closes the gap.
  pub remove-middle :
      {v : VecRef T} (front : List T) (x : T) (back : List T)
      → Holds v (front ++ x ∷ back)
      → Bumped checks v.grow_elts
      → (v' : VecRef T) × (remove checks v (length front) ≡ ok (x, v')) × Holds v' (front ++ back)
  unfolding remove
  remove-middle {v} front x back h g = (
    v',
    rw (
      lt→ltb (length front) v.len (omega (arith, counted)),
      read_front v.slots front x _ (length front) shape refl,
      moved,
      g.computed,
    ),
    held,
  )
    where
      counted : v.len ≡ length front + (length back + 1)
      counted = omega (arith, h.len_eq, length-append front (x ∷ back))

      shape : v.slots ≡ map some front ++ some x ∷ (map some back ++ h.spare)
      shape = h.layout ∙ simp (map-append, append_assoc)

      count : ℕ
      count = v.len - length (map {B = Option T} some front) - 1

      count_lem : count ≡ length back
      count_lem = omega (arith, counted, length-some front)

      -- The slot that the last element leaves still holds it.
      left : List (Option T)
      left = drop count (map some (x ∷ back)) ++ h.spare

      moved :
          copy v.slots (length front + 1) (length front) (v.len - length front - 1)
          ≡ ok (map some front ++ (map some back ++ left))
      moved =
          rw (shape, ← length-some front)
            (copy_down (map some front) (some x) (map some back) h.spare count
              (omega (arith, count_lem, length-some back)))

      v' : VecRef T
      v' = record v {
        len = v.len - 1;
        grow_elts = g.value;
        slots = map some front ++ (map some back ++ left);
      }

      held : Holds v' (front ++ back)
      held = record {
        spare = left;
        layout = simp (map-append, append_assoc);
        len_eq = omega (arith, counted, length-append front back);
        room = omega (
          arith,
          h.room,
          g.below,
          length-append (drop count (map {B = Option T} some (x ∷ back))) h.spare,
          length-drop count (map {B = Option T} some (x ∷ back)),
          length-some back,
          count_lem,
        );
        byte = g.small;
        word = omega (arith, counted, h.word, g.below);
      }
