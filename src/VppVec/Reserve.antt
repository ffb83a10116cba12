-- ===== src/VppVec/Reserve.antt =====
-- `reserve` of vec.rs: the list stays, and there is room for more elements.
use vpp_plugin_rs.Prelude.{
  ℕ, ◌+◌, ◌-◌, ◌≤◌, ◌<◌, ◌≡◌, refl, ap, sym, ◌∙◌, Bool, Option, none, some, List, ◌++◌, map, length,
  take, drop, arith, length-append, lt→ltb, length-drop, take-append-drop, min, take_prefix,
}
use vpp_plugin_rs.Outcome.{ok, u32_mod, usize_mod, clamp_u8}
use vpp_plugin_rs.VppVec.Raw.{VecRef, Vec}
use vpp_plugin_rs.VppVec.Owned.{Allocator, IsVppAllocator, IsSized, len, capacity, reserve, set_len}
use vpp_plugin_rs.VppVec.Valid.{Holds, Represents, length-some}
use vpp_plugin_rs.VppVec.SliceLaws.{set_len_lem, capacity_lem}
use vpp_plugin_rs.VppVec.Slice

-- How many elements the header counts on top of the length.
abbrev pub spare_of {ℓ} : {T : Type ℓ} → Vec T → ℕ
spare_of none = 0
spare_of (some v) = v.grow_elts

module _ {ℓ} {T : Type ℓ} (checks : Bool) (a : Allocator T) (vpp : IsVppAllocator a) where
  pub len_lem : (v : Vec T) (xs : List T) → Represents v xs → len checks a v ≡ length xs
  unfolding len Slice.len
  len_lem none xs h = rw h
  len_lem (some v) xs h = h.len_eq

  pub capacity_Vec :
      (v : Vec T) (xs : List T)
      → Represents v xs
      → capacity checks a v ≡ ok (length xs + spare_of v)
  unfolding capacity
  capacity_Vec none xs h = rw h
  capacity_Vec (some v) xs h =
      capacity_lem checks v h.word ∙ ap (λ n. ok (n + v.grow_elts)) h.len_eq

  -- A resized vector, its length set back, holds the old list with more room.
  resized :
      (r : VecRef T) (xs : List T) (n : ℕ)
      → length xs ≤ n
      → IsSized r n
      → take (length xs) r.slots ≡ map some xs
      → (v' : VecRef T) × (set_len checks a (some r) (length xs) ≡ ok (some v'))
        × Holds v' xs
        × (min (n - length xs) 255 ≤ v'.grow_elts)
  unfolding set_len
  resized r xs n le s kept =
      (v', rw (set_len_lem checks r (length xs) word (omega (arith, s.len_eq))), held, ground arith)
    where
      v' : VecRef T
      v' = record r { len = length xs; grow_elts = clamp_u8 (r.len + r.grow_elts - length xs) }

      word : r.len + r.grow_elts < u32_mod
      word = omega (arith, s.len_eq, s.word)

      held : Holds v' xs
      held = record {
        spare = drop (length xs) r.slots;
        layout =
            sym (take-append-drop (length xs) r.slots)
            ∙ ap (λ t. t ++ drop (length xs) r.slots) kept;
        len_eq = refl;
        room = ground (arith, s.len_eq, s.room, length-drop (length xs) r.slots);
        byte = ground arith;
        word = ground (arith, word);
      }

  -- `reserve` keeps the list and makes room for `k` more elements, of which the header counts 255 at
  -- most.
  pub reserve_lem :
      (v : Vec T) (xs : List T) (k : ℕ)
      → Represents v xs
      → length xs + k < u32_mod
      → (v' : VecRef T) × (reserve checks a v k ≡ ok (some v'))
        × Holds v' xs
        × (min k 255 ≤ v'.grow_elts)
  unfolding reserve
  reserve_lem v xs k h fits =
      let (v', e, held, more) =
        resized (a.resize v (length xs + k)) xs (length xs + k) (omega arith)
          (vpp.resize_sized v (length xs + k) fits) (kept v h) in
      (
        v',
        rw
            (
              len_lem v xs h,
              lt→ltb (length xs + k) usize_mod (omega arith),
              lt→ltb (length xs + k) u32_mod fits,
            )
            e,
        held,
        omega arith,
      )
    where
      fits_slots : (w : VecRef T) → Holds w xs → w.len + w.grow_elts ≤ length w.slots
      fits_slots w h' = omega (
        arith,
        h'.len_eq,
        h'.room,
        ap length h'.layout,
        length-append (map {B = Option T} some xs) h'.spare,
        length-some xs,
      )

      kept :
          (w : Vec T)
          → Represents w xs
          → take (length xs) (a.resize w (length xs + k)).slots ≡ map some xs
      kept none e = rw e
      kept (some w) h' =
          ap (λ n. take n (a.resize (some w) (length xs + k)).slots) (sym h'.len_eq)
          ∙ (vpp.resize_keeps w (length xs + k) (fits_slots w h') (omega (arith, h'.len_eq))
              ∙ (ap (take w.len) h'.layout
                  ∙ take_prefix w.len (map some xs) h'.spare (h'.len_eq ∙ sym (length-some xs))))
