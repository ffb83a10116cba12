-- ===== src/VppVec/Growing.antt =====
-- `push` and `insert_mut` of vec.rs keep what `Spec` promises on lists, with any allocator that VPP
-- may have.
use vpp_plugin_rs.VppVec.Reserve.{reserve_lem, len_lem, capacity_Vec, spare_of}
use vpp_plugin_rs.VppVec.SpecLaws.{insert_at_prefix}
use vpp_plugin_rs.VppVec.Valid.{first_slot, copy_up, Holds, Represents, length-some, write_front}
use vpp_plugin_rs.Prelude.{
  leb→le, cut, le→ltb_false, ltb→lt, eq→==, inr, inl, ◌%◌, Bool-cases, ℕ, ◌+◌, ◌-◌, ◌≤◌, ◌<◌, ◌≡◌,
  refl, ap, sym, ◌∙◌, Bool, false, Option, none, some, List, [], ◌∷◌, ◌++◌, map, length, arith,
  append_assoc, length-append, map-append, lt→ltb, leb, ltb, ◌==◌, if◌then◌else◌,
}
use vpp_plugin_rs.VppVec.Owned.{
  insert_slot, insert_mut, Allocator, IsVppAllocator, len, reserve, push, push_end,
}
use vpp_plugin_rs.VppVec.Raw.{copy, VecRef, Vec}
use vpp_plugin_rs.Outcome.{Outcome, ok, panicked, u8_mod, u32_mod, usize_mod}
use vpp_plugin_rs.VppVec.Spec.{Keeps, holding, panicking, spec_push, spec_insert, insert_at}
use vpp_plugin_rs.Outcome.Laws.{add_word-ok, sub_word-ok}

-- The slots after the elements of `back` have been moved up by one, if there are any.
shifted {ℓ} :
    {T : Type ℓ} (slots : List (Option T)) (front back : List T) (s : Option T)
    (spare : List (Option T)) (i n : ℕ)
    → slots ≡ map some front ++ (map some back ++ s ∷ spare)
    → i ≡ length front
    → n ≡ length front + length back
    → (if ltb i n then copy slots i (i + 1) (n - i) else ok slots)
      ≡ ok (map some front ++ first_slot (map some back) s ∷ (map some back ++ spare))
shifted slots front [] s spare i n e ei en = rw (le→ltb_false i n (omega arith)) (ap ok e)
shifted slots front (b ∷ back) s spare i n e ei en =
    rw (lt→ltb i n (omega arith), e)
      (copy_up (map some front) (map some (b ∷ back)) s spare i (n - i)
        (omega (arith, length-some front)) (omega (arith, length-some back)))

module _ {ℓ} {T : Type ℓ} (checks : Bool) (a : Allocator T) (vpp : IsVppAllocator a) where
  -- A write at the end of a vector with room.
  pub push_end_lem :
      (v : VecRef T) (xs : List T) (x : T)
      → Holds v xs
      → 0 < v.grow_elts
      → Keeps (push_end checks a (some v) (length xs) x) (ok (xs ++ x ∷ []))
  unfolding push_end
  push_end_lem v xs x h g = go h.spare h.layout h.room
    where
      go :
          (spare : List (Option T))
          → v.slots ≡ map some xs ++ spare
          → v.grow_elts ≤ length spare
          → Keeps (push_end checks a (some v) (length xs) x) (ok (xs ++ x ∷ []))
      go [] layout room = absurd (omega arith)
      go (s ∷ spare) layout room =
          let small : length xs + 1 < u32_mod = omega (arith, h.word, h.len_eq) in
          let whole : length xs % u32_mod ≡ length xs = omega arith in
          rw
            (
              write_front v.slots xs s spare (length xs) x layout refl,
              whole,
              add_word-ok checks u32_mod (length xs) 1 small,
              sub_word-ok checks u8_mod v.grow_elts 1 g,
            )
            (holding (record {
              spare = spare;
              layout = simp (map-append, append_assoc);
              len_eq = omega (arith, length-append xs (x ∷ []));
              room = omega arith;
              byte = omega (arith, h.byte);
              word = omega (arith, h.word, h.len_eq);
            }))

  -- Where the header counts no spare element, the vector is resized first, and else it is used as it
  -- is. Either way there is room for one more.
  pub grown :
      (v : Vec T) (xs : List T) (k : ℕ)
      → Represents v xs
      → 0 < k
      → length xs + k < u32_mod
      → (v' : VecRef T) × ((if len checks a v == length xs + spare_of v
            then reserve checks a v k
            else ok v)
          ≡ ok (some v'))
        × Holds v' xs
        × (0 < v'.grow_elts)
  grown v xs k h pos fits = elim (Bool-cases (len checks a v == length xs + spare_of v)) [
    | inl full ↦
        let (v', e, held, more) = reserve_lem checks a vpp v xs k h fits in
        (v', rw full e, held, omega arith)
    | inr spare ↦ rw spare (unresized v h (rw (len_lem checks a vpp v xs h) at spare))
  ]
    where
      unresized :
          (w : Vec T)
          → Represents w xs
          → (length xs == length xs + spare_of w) ≡ false
          → (v' : VecRef T) × (Outcome.ok w ≡ ok (some v')) × Holds v' xs × (0 < v'.grow_elts)
      unresized none e p = absurd (ground arith)
      unresized (some w) held p = (w, refl, held, ground arith)

  spare_word : (v : Vec T) (xs : List T) → Represents v xs → length xs + spare_of v < u32_mod
  spare_word none xs h = omega (arith, ap length h)
  spare_word (some v) xs h = omega (arith, h.word, h.len_eq)

  -- A vector whose length is the greatest u32 counts no spare element.
  pub ungrown :
      (v : Vec T) (xs : List T)
      → Represents v xs
      → u32_mod ≤ length xs + 1
      → (if len checks a v == length xs + spare_of v then reserve checks a v 1 else ok v) ≡ panicked
  unfolding reserve
  ungrown v xs h big = rw (
    len_lem checks a vpp v xs h,
    eq→== (length xs) (length xs + spare_of v) (omega (arith, spare_word v xs h)),
    lt→ltb (length xs + 1) usize_mod (omega (arith, spare_word v xs h)),
    le→ltb_false (length xs + 1) u32_mod big,
  )

  -- push appends the element, growing the vector first where it counts no spare element, and
  -- panics where the length would exceed a u32. The vector is a valid one, and the allocator is as
  -- VPP's is documented.
  pub push-Keeps :
      (v : Vec T) (xs : List T) (x : T)
      → Represents v xs
      → Keeps (push checks a v x) (spec_push xs x)
  unfolding push
  push-Keeps v xs x h = elim (Bool-cases (ltb (length xs + 1) u32_mod)) [
    | inl fits ↦
        let (v', e, held, more) = grown v xs 1 h (omega arith) (ltb→lt _ _ fits) in
        rw (fits, capacity_Vec checks a vpp v xs h, e, len_lem checks a vpp v xs h)
          (push_end_lem v' xs x held more)
    | inr big ↦ rw (big, capacity_Vec checks a vpp v xs h, ungrown v xs h (ground arith)) panicking
  ]

  -- The elements from `index` on are moved up by one, and the gap is filled.
  insert_slot_lem :
      (v : VecRef T) (xs front back : List T) (i : ℕ) (x : T)
      → xs ≡ front ++ back
      → i ≡ length front
      → Holds v xs
      → 0 < v.grow_elts
      → Keeps (insert_slot checks a (some v) i (length xs) x) (ok (front ++ x ∷ back))
  unfolding insert_slot
  insert_slot_lem v xs front back i x e m h g = go h.spare h.layout h.room
    where
      n : ℕ
      n = length xs

      count : n ≡ length front + length back
      count = ap length e ∙ length-append front back

      go :
          (spare : List (Option T))
          → v.slots ≡ map some xs ++ spare
          → v.grow_elts ≤ length spare
          → Keeps (insert_slot checks a (some v) i n x) (ok (front ++ x ∷ back))
      go [] layout room = absurd (omega arith)
      go (s ∷ spare) layout room =
          let whole : n % u32_mod ≡ n = omega (arith, h.word, h.len_eq) in
          let split : v.slots ≡ map some front ++ (map some back ++ s ∷ spare) =
            layout ∙ (ap (λ l. map some l ++ s ∷ spare) e ∙ simp (map-append, append_assoc)) in
          rw
            (
              shifted v.slots front back s spare i n split m count,
              write_front _ front (first_slot (map some back) s) (map some back ++ spare) i x refl
                  m,
              whole,
              add_word-ok checks u32_mod n 1 (omega (arith, h.word, h.len_eq)),
              sub_word-ok checks u8_mod v.grow_elts 1 g,
            )
            (holding (record {
              spare = spare;
              layout = simp (map-append, append_assoc);
              len_eq = omega (arith, count, length-append front (x ∷ back));
              room = omega arith;
              byte = omega (arith, h.byte);
              word = omega (arith, h.word, h.len_eq);
            }))

  -- insert_mut inserts at the index, grows the vector first where it counts no spare element, and
  -- panics past the end or where the length would exceed a u32. The vector is a valid one, and the
  -- allocator is as VPP's is documented.
  pub insert_mut-Keeps :
      (v : Vec T) (xs : List T) (i : ℕ) (x : T)
      → Represents v xs
      → Keeps (insert_mut checks a v i x) (spec_insert xs i x)
  unfolding insert_mut
  insert_mut-Keeps v xs i x h = elim (Bool-cases (leb i (length xs))) [
    | inr past ↦
        rw (past, capacity_Vec checks a vpp v xs h, len_lem checks a vpp v xs h, past) panicking
    | inl inside ↦ elim (Bool-cases (ltb (length xs + 1) u32_mod)) [
      | inl fits ↦
          let (v', e, held, more) = grown v xs 1 h (omega arith) (ltb→lt _ _ fits) in
          rw
            (inside, fits, capacity_Vec checks a vpp v xs h, e, len_lem checks a vpp v xs h, inside)
            (at_cut v' held more (leb→le _ _ inside))
      | inr big ↦
          rw
            (
              inside,
              big,
              capacity_Vec checks a vpp v xs h,
              ungrown v xs h (ground arith),
              len_lem checks a vpp v xs h,
              inside,
            )
            panicking
    ]
  ]
    where
      at_cut :
          (v' : VecRef T)
          → Holds v' xs
          → 0 < v'.grow_elts
          → i ≤ length xs
          → Keeps (insert_slot checks a (some v') i (length xs) x) (ok (insert_at i x xs))
      at_cut v' held more le =
          let (front, back, e, m) = cut xs i le in
          rw (ap (insert_at i x) e ∙ insert_at_prefix i front x back (sym m))
            (insert_slot_lem v' xs front back i x e (sym m) held more)
