-- ===== src/TimerWheel/Expiry.antt =====
-- The invariant of a wheel, and what becomes of its timers while time passes.
use vpp_plugin_rs.Prelude.{
  sym, ap, ◌∙◌, ℕ, ◌≤◌, ◌<◌, ◌≡◌, ◌⊎◌, inl, inr, refl, List, [], ◌∷◌, ◌++◌, Option, none, some,
  get_elem?, arith,
}
use vpp_plugin_rs.Outcome.{usize_mod}
use vpp_plugin_rs.TimerWheel.Slab.{Slab}
use vpp_plugin_rs.TimerWheel.Entries.{head, timer, TimerEntry}
use vpp_plugin_rs.TimerWheel.Wheel.{EntryList, Level, TimerWheel}
use vpp_plugin_rs.TimerWheel.Links.{Entries, data_of, IsLinked}
use vpp_plugin_rs.TimerWheel.Placement.{IsShape}

-- Every slot has its head entry, and times are words. `pending` is the timer that is in no list.
pub record IsWheel {T S : Type 0} (slab : Slab (TimerEntry T) S) (num_levels num_slots : ℕ)
    (w : TimerWheel S) (pending : ℕ) : Type 0 where
  pub links : IsLinked (slab.get w.timers) pending
  pub shape : IsShape num_levels num_slots w.levels
  pub heads :
      (l : ℕ) (lv : Level) (i : ℕ) (list : EntryList)
      → get_elem? w.levels l ≡ some lv
      → get_elem? lv.slots i ≡ some list
      → data_of (slab.get w.timers list.head) ≡ some head
  pub clock : w.current_time < usize_mod
  pub times :
      (j time : ℕ) (c : T) → data_of (slab.get w.timers j) ≡ some (timer time c) → time < usize_mod

module _ {T : Type 0} where
  abbrev pub Among : T → List T → Type 0
  Among c [] = ⊥
  Among c (x ∷ xs) = (c ≡ x) ⊎ Among c xs

  pub Among-left : (c : T) (xs ys : List T) → Among c xs → Among c (xs ++ ys)
  Among-left c [] ys m = absurd m
  Among-left c (x ∷ xs) ys (inl e) = inl e
  Among-left c (x ∷ xs) ys (inr m) = inr (Among-left c xs ys m)

  pub Among-right : (c : T) (xs ys : List T) → Among c ys → Among c (xs ++ ys)
  Among-right c [] ys m = m
  Among-right c (x ∷ xs) ys m = inr (Among-right c xs ys m)

  pub Among-split : (c : T) (xs ys : List T) → Among c (xs ++ ys) → Among c xs ⊎ Among c ys
  Among-split c [] ys m = inr m
  Among-split c (x ∷ xs) ys (inl e) = inl (inl e)
  Among-split c (x ∷ xs) ys (inr m) = elim (Among-split c xs ys m) [
    | inl l ↦ inl (inr l)
    | inr r ↦ inr r
  ]

  -- The entry was a timer whose time has passed, and it is there no more.
  pub record IsExpired (now : ℕ) (g g' : Entries T) (out : List T) (j : ℕ) : Type 0 where
    pub time : ℕ
    pub context : T
    pub was : data_of (g j) ≡ some (timer time context)
    pub due : time ≤ now
    pub gone : g' j ≡ none
    pub returned : Among context out

  -- Each entry stays what it was or has expired, and every context returned is that of an expired one.
  pub record Expires (now : ℕ) (g g' : Entries T) (out : List T) : Type 0 where
    pub each : (j : ℕ) → (data_of (g' j) ≡ data_of (g j)) ⊎ IsExpired now g g' out j
    pub only :
        (c : T)
        → Among c out
        → (j : ℕ) × (time : ℕ) × (data_of (g j) ≡ some (timer time c))
          × (time ≤ now)
          × (g' j ≡ none)

  pub Expires-none :
      (now : ℕ) (g g' : Entries T)
      → ((j : ℕ) → data_of (g' j) ≡ data_of (g j))
      → Expires now g g' []
  Expires-none now g g' same = record { each = λ j. inl (same j); only = λ c m. absurd m }

  none-data : (o : Option (TimerEntry T)) → data_of o ≡ none → o ≡ none
  none-data none e = refl
  none-data (some x) e = absurd (cc)

  -- What is left is what was there.
  pub was_before :
      (now : ℕ) (g g' : Entries T) (out : List T) (j time : ℕ) (c : T)
      → Expires now g g' out
      → data_of (g' j) ≡ some (timer time c)
      → data_of (g j) ≡ some (timer time c)
  was_before now g g' out j time c a is = elim (a.each j) [
    | inl same ↦ sym same ∙ is
    | inr x ↦ let gone = x.gone in absurd (ground (arith, is, gone))
  ]

  pub head_after :
      (now : ℕ) (g g' : Entries T) (out : List T) (j : ℕ)
      → Expires now g g' out
      → data_of (g j) ≡ some head
      → data_of (g' j) ≡ some head
  head_after now g g' out j a was = elim (a.each j) [
    | inl same ↦ same ∙ was
    | inr x ↦ let was' = x.was in absurd (ground (arith, was, was'))
  ]

  pub Expires-append :
      (now later : ℕ) (g g₁ g₂ : Entries T) (out more : List T)
      → now ≤ later
      → Expires now g g₁ out
      → Expires later g₁ g₂ more
      → Expires later g g₂ (out ++ more)
  Expires-append now later g g₁ g₂ out more le a b = record {
    each = λ j. elim (a.each j) [
      | inl same ↦ elim (b.each j) [
        | inl same' ↦ inl (same' ∙ same)
        | inr x ↦ inr (record {
          time = x.time;
          context = x.context;
          was = sym same ∙ x.was;
          due = x.due;
          gone = x.gone;
          returned = Among-right x.context out more x.returned;
        })
      ]
      | inr x ↦ inr (record {
        time = x.time;
        context = x.context;
        was = x.was;
        due = omega (arith, x.due);
        gone = still_gone j x.gone;
        returned = Among-left x.context out more x.returned;
      })
    ];
    only = λ c m. elim (Among-split c out more m) [
      | inl l ↦
          let (j, time, was, due, gone) = a.only c l in
          (j, time, was, omega (arith, due), still_gone j gone)
      | inr r ↦
          let (j, time, was, due, gone) = b.only c r in
          (j, time, was_before now g g₁ out j time c a was, due, gone)
    ];
  }
    where
      still_gone : (j : ℕ) → g₁ j ≡ none → g₂ j ≡ none
      still_gone j gone = elim (b.each j) [
        | inl same ↦ none-data (g₂ j) (same ∙ ap data_of gone)
        | inr x ↦ x.gone
      ]
