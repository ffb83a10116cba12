-- ===== src/VppVec/Cloning.antt =====
-- `to_vpp_vec`, `clone` and `extend_with` of vec.rs: what they copy up to 255 elements, which is as
-- much as the u8 field `grow_elts` counts, and what they do beyond.
use vpp_plugin_rs.Prelude.{
  append_assoc, length-append, length-replicate, ◌%◌, ne→==_false, eq→==, lt→leb_false, length-take,
  length-drop, length-map, le→leb, lt→ltb, ℕ, zero, suc, ◌+◌, ◌-◌, ◌≤◌, ◌<◌, ◌≡◌, refl, ap, sym,
  ◌∙◌, Bool, true, false, none, some, List, [], ◌∷◌, ◌++◌, map, length, take, drop, arith,
  replicate,
}
use vpp_plugin_rs.Outcome.Laws.{add_word-ok}
use vpp_plugin_rs.VppVec.Reserve.{reserve_lem, len_lem}
use vpp_plugin_rs.Outcome.{usize_mod, clamp_u8, panicked, u32_mod, ok}
use vpp_plugin_rs.VppVec.SliceLaws.{as_slice_lem}
use vpp_plugin_rs.VppVec.Valid.{Represents, Holds}
use vpp_plugin_rs.VppVec.Raw.{Vec, VecRef}
use vpp_plugin_rs.VppVec.CollectLaws.{set_len-Keeps, write_all_lem, with_capacity_lem}
use vpp_plugin_rs.VppVec.Spec.{Keeps}
use vpp_plugin_rs.VppVec.Owned.{IsVppAllocator, Allocator}
use vpp_plugin_rs.VppVec.Collect.{to_vpp_vec, clone_vec, extend_with}
use vpp_plugin_rs.VppVec.Owned
use vpp_plugin_rs.VppVec.Slice

take_all {ℓ} : {A : Type ℓ} (n : ℕ) (xs : List A) → length xs ≤ n → take n xs ≡ xs
take_all zero [] h = refl
take_all zero (x ∷ xs) h = absurd (omega arith)
take_all (suc n) [] h = refl
take_all (suc n) (x ∷ xs) h = ap (λ r. x ∷ r) (take_all n xs (omega arith))

pub as_slice_Vec {ℓ} :
    {T : Type ℓ} (checks : Bool) (a : Allocator T) (v : Vec T) (xs : List T)
    → Represents v xs
    → Owned.as_slice checks a v ≡ ok xs
unfolding Owned.as_slice Owned.len Slice.len
as_slice_Vec checks a none xs h = rw h
as_slice_Vec checks a (some v) [] h = rw (eq→== v.len 0 h.len_eq)
as_slice_Vec checks a (some v) (x ∷ xs) h =
    rw (ne→==_false v.len 0 (omega (arith, h.len_eq))) (as_slice_lem checks h)

module _ {ℓ} {T : Type ℓ} (checks : Bool) (a : Allocator T) (vpp : IsVppAllocator a) where
  -- An empty vector offers as many spare slots as its header counts.
  spare_lem :
      (v : VecRef T) → Holds v [] → Owned.spare_capacity_mut checks a (some v) ≡ ok v.grow_elts
  unfolding Owned.spare_capacity_mut Slice.spare_capacity_mut
  spare_lem v h =
      rw
        (
          h.len_eq,
          lt→ltb (0 + v.grow_elts) u32_mod (omega (arith, h.word, h.len_eq)),
          le→leb 0 (0 + v.grow_elts) (omega arith),
          le→leb (0 + (0 + v.grow_elts - 0)) (length v.slots)
              (omega (arith, h.room, ap length h.layout)),
        )
        (ap ok (omega arith))

  -- `to_vpp_vec` writes as many clones as the new header counts spare elements, and then sets the
  -- length of the whole slice.
  filled :
      (clone : T → T) (xs : List T) (v : VecRef T)
      → Owned.with_capacity checks a (length xs) ≡ ok (some v)
      → Holds v []
      → let ys = map clone (take v.grow_elts xs) in
        to_vpp_vec checks a clone xs
        ≡ Owned.set_len checks a
            (some (record v { slots = map some ys ++ drop (length ys) v.slots }))
            (length xs)
  unfolding to_vpp_vec
  filled clone xs v e h =
      rw (e, spare_lem v h, len_lem checks a vpp (some v) [] h)
        (rw (
          write_all_lem v [] (map clone (take v.grow_elts xs)) v.slots 0 refl refl (
            omega (
              arith,
              length-map clone (take v.grow_elts xs),
              length-take v.grow_elts xs,
              h.room,
              ap length h.layout,
            ))))

  -- to_vpp_vec of a slice of at most 255 elements is the vector of their clones. The allocator is
  -- as VPP's is documented.
  pub to_vpp_vec-Keeps :
      (clone : T → T) (xs : List T)
      → length xs ≤ 255
      → Keeps (to_vpp_vec checks a clone xs) (ok (map clone xs))
  to_vpp_vec-Keeps clone xs short =
      let (v, e, held, g, _) = with_capacity_lem checks a vpp (length xs) (omega arith) in
      let count : length xs ≤ v.grow_elts = ground (arith, g) in
      let all = take_all v.grow_elts xs count in
      rw (filled clone xs v e held, all)
        (set_len-Keeps checks a _ (map clone xs) (drop (length (map clone xs)) v.slots) (length xs)
          refl (sym (length-map clone xs)) held.word (omega arith)
          (omega (
            arith,
            held.len_eq,
            held.room,
            ap length held.layout,
            length-map clone xs,
            length-drop (length (map clone xs)) v.slots,
          )))

  -- `clone` is `to_vpp_vec` of the elements.
  pub clone_vec-Keeps :
      (clone : T → T) (v : Vec T) (xs : List T)
      → Represents v xs
      → length xs ≤ 255
      → Keeps (clone_vec checks a clone v) (ok (map clone xs))
  unfolding clone_vec
  clone_vec-Keeps clone v xs h short =
      rw (as_slice_Vec checks a v xs h) (to_vpp_vec-Keeps clone xs short)

-- With debug assertions to_vpp_vec of a slice of more than 255 elements, and less than 2^32,
-- panics. The allocator is as VPP's is documented.
pub to_vpp_vec_panics {ℓ} :
    {T : Type ℓ} (a : Allocator T) (clone : T → T) (xs : List T)
    → IsVppAllocator a
    → 255 < length xs
    → length xs < u32_mod
    → to_vpp_vec true a clone xs ≡ panicked
unfolding Owned.set_len Slice.set_len Slice.capacity
to_vpp_vec_panics a clone xs vpp long small =
    let (v, e, held, g, _) = with_capacity_lem true a vpp (length xs) small in
    rw (
      filled true a vpp clone xs v e held,
      held.len_eq,
      lt→ltb (0 + v.grow_elts) u32_mod (ground (arith, g)),
      lt→leb_false (length xs) (0 + v.grow_elts) (ground (arith, g)),
    )

-- Without debug assertions to_vpp_vec of a slice of more than 255 elements, and less than 2^32,
-- gives a vector of the full length of which the first 255 elements are written: the other slots
-- are as the allocator left them. The allocator is as VPP's is documented.
pub to_vpp_vec_unwritten {ℓ} :
    {T : Type ℓ} (a : Allocator T) (clone : T → T) (xs : List T)
    → IsVppAllocator a
    → 255 < length xs
    → length xs < u32_mod
    → (v : VecRef T) × (to_vpp_vec false a clone xs ≡ ok (some v))
      × (v.len ≡ length xs)
      × (v.slots ≡ map some (map clone (take 255 xs)) ++ drop 255 (a.alloc (length xs)).slots)
unfolding Owned.set_len Slice.set_len Slice.capacity
to_vpp_vec_unwritten a clone xs vpp long small =
    let (v, e, held, g, kept) = with_capacity_lem false a vpp (length xs) small in
    let full : v.grow_elts ≡ 255 = ground (arith, g) in
    let ys = map clone (take v.grow_elts xs) in
    let count : length (map clone (take 255 xs)) ≡ 255 =
      omega (arith, length-map clone (take 255 xs), length-take 255 xs) in
    (
      record {
        len = length xs % u32_mod;
        grow_elts = clamp_u8 ((0 + v.grow_elts + usize_mod - length xs) % usize_mod);
        slots = map some ys ++ drop (length ys) v.slots;
      },
      rw (
        filled false a vpp clone xs v e held,
        held.len_eq,
        lt→ltb (0 + v.grow_elts) u32_mod (omega arith),
        lt→leb_false (length xs) (0 + v.grow_elts) (omega arith),
      ),
      omega arith,
      ap (λ k. map some (map clone (take k xs)) ++ drop (length (map clone (take k xs))) v.slots)
            full
          ∙ (λ i. map some (map clone (take 255 xs)) ++ drop (count i) (kept i)),
    )

-- extend_with appends that many copies of the value, from 1 to 255, if the elements then number
-- less than 2^32. The vector is a valid one, and the allocator is as VPP's is documented.
pub extend_with-Keeps {ℓ} :
    {T : Type ℓ} (checks : Bool) (a : Allocator T) (clone : T → T) (v : Vec T) (xs : List T) (n : ℕ)
    (value : T)
    → IsVppAllocator a
    → Represents v xs
    → suc n ≤ 255
    → length xs + suc n < u32_mod
    → Keeps
        (extend_with checks a clone v (suc n) value)
        (ok (xs ++ (replicate n (clone value) ++ value ∷ [])))
unfolding extend_with
extend_with-Keeps checks a clone v xs n value vpp h short small =
    let (v', e, held, more) = reserve_lem checks a vpp v xs (suc n) h small in
    let copies = replicate n (clone value) in
    let c : length copies ≡ n = length-replicate n (clone value) in
    let less : suc n - 1 ≡ n = omega arith in
    let front : length (xs ++ copies) ≡ length xs + n = omega (arith, length-append xs copies) in
    let one : length (drop n held.spare) ≡ length held.spare - n = length-drop n held.spare in
    rw
      (
        e,
        len_lem checks a vpp (some v') xs held,
        add_word-ok checks usize_mod (length xs) (suc n) (omega arith),
        less,
        write_all_lem v' xs copies held.spare (length xs) held.layout refl
            (omega (arith, held.room)),
        c,
        lt→ltb 0 (suc n) (omega arith),
        write_all_lem (record v' { slots = map some (xs ++ copies) ++ drop n held.spare })
            (xs ++ copies) (value ∷ []) (drop n held.spare) (length xs + n) refl (sym front)
            (omega (arith, held.room)),
        append_assoc xs copies (value ∷ []),
      )
      (set_len-Keeps checks a _ (xs ++ (copies ++ value ∷ [])) (drop 1 (drop n held.spare))
        (length xs + suc n) refl
        (omega (arith, length-append xs (copies ++ value ∷ []), length-append copies (value ∷ [])))
        held.word (omega (arith, held.len_eq))
        (omega (arith, held.len_eq, held.room, length-drop 1 (drop n held.spare))))
