-- ===== src/TimerWheel/Placement.antt =====
-- The slot that `start_timer_unchecked` chooses lies in the wheel, and none of its arithmetic overflows.
use native.Mathlib.Nat.{pow-zero, div-lt_iff_lt-mul, mod-lt, pow-le-pow_right}
use vpp_plugin_rs.Prelude.{
  ltb→lt, ◌∙◌, inr, inl, ne→==_false, Bool-cases, lt→ltb, ℕ, zero, suc, ◌+◌, ◌-◌, ◌*◌, ◌/◌, ◌%◌,
  ◌^◌, ◌≤◌, ◌<◌, ◌≡◌, refl, ap, Bool, List, [], ◌∷◌, some, get_elem?, length, ltb, arith,
}
use vpp_plugin_rs.Outcome.Laws.{add_word-ok, sub_word-ok}
use native.Mathlib.Omega.{pow_step}
use vpp_plugin_rs.Outcome.{ok, usize_mod}
use vpp_plugin_rs.TimerWheel.Wheel.{
  Level, rem_word, pow_word, last_slot, slot_at, find_level, place,
}

-- A wheel of `num_levels` levels of `num_slots` slots.
pub record IsShape (num_levels num_slots : ℕ) (levels : List Level) : Type 0 where
  pub some_level : 0 < num_levels
  pub some_slot : 0 < num_slots
  pub few : num_levels < usize_mod
  pub small : num_slots + num_slots < usize_mod
  pub range : num_slots ^ num_levels < usize_mod
  pub count : length levels ≡ num_levels
  pub within :
      (l : ℕ) (lv : Level)
      → get_elem? levels l ≡ some lv
      → (lv.position < num_slots) × (length lv.slots ≡ num_slots)

pub get_elem?_lt {ℓ} :
    {A : Type ℓ} (xs : List A) (i : ℕ) → i < length xs → (x : A) × (get_elem? xs i ≡ some x)
get_elem?_lt [] i h = absurd (omega arith)
get_elem?_lt (x ∷ xs) zero h = (x, refl)
get_elem?_lt (x ∷ xs) (suc i) h = get_elem?_lt xs i (omega arith)

pub rem_word-ok : (a b : ℕ) → 0 < b → rem_word a b ≡ ok (a % b)
rem_word-ok a b h = ground arith

add_one : (l : ℕ) → l + 1 ≡ suc l
add_one l = omega arith

abbrev pub Inside : ℕ → ℕ → ℕ × ℕ → Type 0
Inside num_levels num_slots (level, slot) = (level < num_levels) × (slot < num_slots)

module _ (checks : Bool) (num_levels num_slots : ℕ) (levels : List Level)
    (s : IsShape num_levels num_slots levels) where
  pow_word-ok : (l : ℕ) → l ≤ num_levels → pow_word checks num_slots l ≡ ok (num_slots ^ l)
  pow_word-ok l h =
      let small : num_slots ^ l ≤ num_slots ^ num_levels = pow-le-pow_right s.some_slot h in
      rw (lt→ltb (num_slots ^ l) usize_mod (omega (arith, small, s.range)))

  slot_at_lem :
      (lv : Level) (l delta : ℕ)
      → lv.position < num_slots
      → l < num_levels
      → delta < num_slots ^ (l + 1)
      → slot_at checks num_levels num_slots lv l delta
        ≡ ok ((lv.position + delta / num_slots ^ l - 1) % num_slots)
  unfolding slot_at
  slot_at_lem lv l delta h low fits =
      let pos : num_slots ^ zero ≤ num_slots ^ l = pow-le-pow_right s.some_slot (omega arith) in
      let positive : 0 < num_slots ^ l = omega (arith, pos, pow-zero num_slots) in
      let step : num_slots ^ (l + 1) ≡ num_slots * num_slots ^ l =
        ap (λ k. num_slots ^ k) (add_one l) ∙ pow_step num_slots l in
      let few : delta / num_slots ^ l < num_slots =
        (div-lt_iff_lt-mul positive).1 (omega (arith, fits, step)) in
      rw
        (
          pow_word-ok l (omega arith),
          ne→==_false (num_slots ^ l) 0 (λ e. omega (arith, e, positive)),
          add_word-ok checks usize_mod lv.position (delta / num_slots ^ l)
              (omega (arith, few, h, s.small)),
        )
        (rem_word-ok (lv.position + delta / num_slots ^ l - 1) num_slots s.some_slot)

  last_slot_lem :
      (at : ℕ × ℕ) × (last_slot checks num_levels num_slots levels ≡ ok at)
      × Inside num_levels num_slots at
  unfolding last_slot
  last_slot_lem =
      let (lv, at) = get_elem?_lt levels (num_levels - 1) (omega (arith, s.count, s.some_level)) in
      let (h, slots) = s.within (num_levels - 1) lv at in
      (
        (num_levels - 1, (lv.position + num_slots - 1) % num_slots),
        rw
            (
              sub_word-ok checks usize_mod num_levels 1 s.some_level,
              at,
              add_word-ok checks usize_mod lv.position num_slots (omega (arith, h, s.small)),
              sub_word-ok checks usize_mod (lv.position + num_slots) 1 (omega (arith, s.some_slot)),
              rem_word-ok (lv.position + num_slots - 1) num_slots s.some_slot,
            )
            refl,
        (omega (arith, s.some_level), mod-lt (lv.position + num_slots - 1) s.some_slot),
      )

  find_level_lem :
      (delta n l : ℕ) (last : ℕ × ℕ)
      → n + l ≡ num_levels
      → Inside num_levels num_slots last
      → (at : ℕ × ℕ) × (find_level checks num_levels num_slots levels delta n l last ≡ ok at)
        × Inside num_levels num_slots at
  unfolding find_level
  find_level_lem delta zero l last e h = (last, refl, h)
  find_level_lem delta (suc n) l last e h =
      let (lv, at) = get_elem?_lt levels l (omega (arith, s.count, e)) in
      let (low, slots) = s.within l lv at in
      elim (Bool-cases (ltb delta (num_slots ^ (l + 1)))) [
        | inl fits ↦ (
          (l, (lv.position + delta / num_slots ^ l - 1) % num_slots),
          rw
              (
                pow_word-ok (l + 1) (omega arith),
                fits,
                at,
                slot_at_lem lv l delta low (omega arith) (ltb→lt delta (num_slots ^ (l + 1)) fits),
              )
              refl,
          (omega (arith, e), mod-lt (lv.position + delta / num_slots ^ l - 1) s.some_slot),
        )
        | inr far ↦
            let (r, found, inside) = find_level_lem delta n (l + 1) last (omega arith) h in
            (r, rw (pow_word-ok (l + 1) (omega arith), far) found, inside)
      ]

  -- Whatever ticks a timer has left, a slot is chosen for it, which lies in the wheel: no sum,
  -- power or quotient of the search overflows or panics. The wheel has the shape of a valid one.
  pub place_lem :
      (delta : ℕ)
      → (at : ℕ × ℕ) × (place checks num_levels num_slots levels delta ≡ ok at)
        × Inside num_levels num_slots at
  unfolding place
  place_lem delta =
      let (last, p, inside) = last_slot_lem in
      let (at, q, inside') = find_level_lem delta num_levels 0 last (omega arith) inside in
      (at, rw p q, inside')
