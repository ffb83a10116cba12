-- ===== src/TimerWheel/FirstSlot.antt =====
-- The loop of `next_expiration` over the slots of a level: the first slot that has timers.
use native.Mathlib.Nat.{mod-eq_of_lt, add-mod_right, mod-lt}
use vpp_plugin_rs.Prelude.{
  leb, leb→le, leb_false→lt, ◌-◌, Bool-cases, ◌%◌, ap, subst, ◌∙◌, ℕ, zero, suc, ◌+◌, ◌≤◌, ◌<◌, ◌≡◌,
  inl, inr, refl, Bool, List, Option, none, some, get_elem?, length, if◌then◌else◌, ◌==◌, arith,
}
use vpp_plugin_rs.TimerWheel.Search.{least_time, search_slots}
use vpp_plugin_rs.TimerWheel.Least.{IsLeast, least_time_lem}
use vpp_plugin_rs.TimerWheel.Placement.{rem_word-ok, get_elem?_lt}
use vpp_plugin_rs.Outcome.Laws.{add_word-ok}
use vpp_plugin_rs.TimerWheel.Store.{data-there}
use vpp_plugin_rs.Outcome.{Outcome, ok, ◌>>=◌, usize_mod}
use vpp_plugin_rs.TimerWheel.Slab.{Slab}
use vpp_plugin_rs.TimerWheel.Entries.{empty_index, head, TimerEntry}
use vpp_plugin_rs.TimerWheel.Wheel.{EntryList, Level, TimerWheel}
use vpp_plugin_rs.TimerWheel.Links.{next_of, Chain}
use vpp_plugin_rs.TimerWheel.Expiry.{IsWheel}

-- From some fuel on the search ends with what it finds.
abbrev pub Ends : {A : Type 0} → (A → Type 0) → (ℕ → Outcome A) → Type 0
Ends {A} P run = (enough : ℕ) × (r : A) × ((fuel : ℕ) → enough ≤ fuel → run fuel ≡ ok r) × P r

module _ {T S : Type 0} (slab : Slab (TimerEntry T) S) (checks : Bool) (num_levels num_slots : ℕ)
    (w : TimerWheel S) where
  -- The list of the slot that many slots behind the position of a level has no timer.
  pub record IsEmpty (lv : Level) (offset : ℕ) : Type 0 where
    pub list : EntryList
    pub at_slot : get_elem? lv.slots ((lv.position + offset) % num_slots) ≡ some list
    pub at_next : next_of (slab.get w.timers list.head) ≡ some empty_index

  -- The first slot with timers, of those from an offset on, has this least time.
  pub record IsFirst (lv : Level) (from time : ℕ) : Type 0 where
    pub offset : ℕ
    pub list : EntryList
    pub first : ℕ
    pub timers : List ℕ
    pub after : from ≤ offset
    pub within : offset < num_slots
    pub passed : (i : ℕ) → from ≤ i → i < offset → IsEmpty lv i
    pub at_slot : get_elem? lv.slots ((lv.position + offset) % num_slots) ≡ some list
    pub at_next : next_of (slab.get w.timers list.head) ≡ some first
    pub chain : Chain (slab.get w.timers) first timers
    pub least : IsLeast slab num_levels num_slots w timers time

  abbrev pub IsEmptyFrom : Level → ℕ → Type 0
  IsEmptyFrom lv from = (i : ℕ) → from ≤ i → i < num_slots → IsEmpty lv i

  abbrev pub WasFound : Level → ℕ → Option (Option ℕ) → Type 0
  WasFound lv from none = IsEmptyFrom lv from
  WasFound lv from (some none) = ⊥
  WasFound lv from (some (some time)) = IsFirst lv from time

  passed-one :
      (lv : Level) (from : ℕ)
      → IsEmpty lv from
      → (i : ℕ) → from ≤ i
      → ((from + 1 ≤ i) → IsEmpty lv i)
      → IsEmpty lv i
  passed-one lv from here i h later = elim (Bool-cases (from == i)) [
    | inl same ↦ subst (λ i. IsEmpty lv i) (ground (arith, same)) here
    | inr other ↦ later (ground (arith, other, h))
  ]

  WasFound-step :
      (lv : Level) (from : ℕ) (r : Option (Option ℕ))
      → IsEmpty lv from
      → WasFound lv (from + 1) r
      → WasFound lv from r
  WasFound-step lv from none here rest =
      λ i h i_lt. passed-one lv from here i h (λ h'. rest i h' i_lt)
  WasFound-step lv from (some none) here rest = rest
  WasFound-step lv from (some (some time)) here f = record {
    offset = f.offset;
    list = f.list;
    first = f.first;
    timers = f.timers;
    after = omega (arith, f.after);
    within = f.within;
    passed = λ i h i_lt. passed-one lv from here i h (λ h'. f.passed i h' i_lt);
    at_slot = f.at_slot;
    at_next = f.at_next;
    chain = f.chain;
    least = f.least;
  }

  slot-run :
      (fuel count i : ℕ) (lv : Level) (list : EntryList) (e : TimerEntry T) (r : Option (Option ℕ))
      → lv.position + i < usize_mod
      → 0 < num_slots
      → get_elem? lv.slots ((lv.position + i) % num_slots) ≡ some list
      → slab.get w.timers list.head ≡ some e
      → (if e.next == empty_index
          then search_slots slab checks num_levels num_slots fuel w.timers lv count (i + 1)
          else (least_time slab checks num_levels num_slots fuel w.timers e.next none >>= λ least.
              ok (some least)))
        ≡ ok r
      → search_slots slab checks num_levels num_slots fuel w.timers lv (suc count) i ≡ ok r
  unfolding search_slots
  slot-run fuel count i lv list e r small some_slot at_slot at_head rest =
      rw
        (
          add_word-ok checks usize_mod lv.position i small,
          rem_word-ok (lv.position + i) num_slots some_slot,
          at_slot,
          at_head,
        )
        rest

  module _ (inv : IsWheel slab num_levels num_slots w empty_index) where
    pub search_slots_lem :
        (l : ℕ) (lv : Level) (count i : ℕ)
        → get_elem? w.levels l ≡ some lv
        → i + count ≡ num_slots
        → Ends
            (WasFound lv i)
            (λ fuel. search_slots slab checks num_levels num_slots fuel w.timers lv count i)
    search_slots_lem l lv zero i at_level total =
        (0, none, λ fuel h. slots-end fuel, λ j h j_lt. absurd (omega arith))
      where
        slots-end :
            (fuel : ℕ)
            → search_slots slab checks num_levels num_slots fuel w.timers lv zero i ≡ ok none
        slots-end fuel = unfold search_slots in refl
    search_slots_lem l lv (suc count) i at_level total =
        let (low, slots) = inv.shape.within l lv at_level in
        let some_slot = inv.shape.some_slot in
        let small : lv.position + i < usize_mod = omega (arith, low, total, inv.shape.small) in
        let slot_lt : (lv.position + i) % num_slots < num_slots =
          mod-lt (lv.position + i) some_slot in
        let (list, at_slot) =
          get_elem?_lt lv.slots ((lv.position + i) % num_slots) (omega (arith, slots, slot_lt)) in
        let (e, at_head, a_head) =
          data-there (slab.get w.timers list.head) head
            (inv.heads l lv ((lv.position + i) % num_slots) list at_level at_slot) in
        let at_next : next_of (slab.get w.timers list.head) ≡ some e.next = ap next_of at_head in
        let (enough, r, runs, found) = search_slots_lem l lv count (i + 1) at_level (omega arith) in
        elim (Bool-cases (e.next == empty_index)) [
          | inl none_here ↦
              let empty : IsEmpty lv i = record {
                list = list;
                at_slot = at_slot;
                at_next = at_next ∙ ap some (ground (arith, none_here));
              } in
              (
                enough,
                r,
                λ fuel h.
                    slot-run fuel count i lv list e r small some_slot at_slot at_head
                      (rw none_here (runs fuel h)),
                WasFound-step lv i r empty found,
              )
          | inr here ↦
              let (ts, chain) = inv.links.finite list.head e.next at_next in
              let (least, least_runs, is_least) =
                least_time_lem slab checks num_levels num_slots w inv e.next ts chain
                  (λ same. ground (arith, here, same))
                  (λ ne. inv.links.headless list.head e.next at_next ne) in
              (
                length ts,
                some (some least),
                λ fuel h.
                    slot-run fuel count i lv list e (some (some least)) small some_slot at_slot
                      at_head (rw (here, least_runs fuel h) refl),
                record {
                  offset = i;
                  list = list;
                  first = e.next;
                  timers = ts;
                  after = omega arith;
                  within = omega (arith, total);
                  passed = λ j h j_lt. absurd (omega (arith, h, j_lt));
                  at_slot = at_slot;
                  at_next = at_next;
                  chain = chain;
                  least = is_least;
                },
              )
        ]

    -- Counted round from the position, a level has every one of its slots.
    pub slot-IsEmpty :
        (l : ℕ) (lv : Level) (i : ℕ)
        → get_elem? w.levels l ≡ some lv
        → i < num_slots
        → IsEmptyFrom lv 0
        → (list : EntryList) × (get_elem? lv.slots i ≡ some list)
          × (next_of (slab.get w.timers list.head) ≡ some empty_index)
    slot-IsEmpty l lv i at_level i_lt all = elim (Bool-cases (leb lv.position i)) [
      | inl ahead ↦
          let k : ℕ = i - lv.position in
          let round : (lv.position + k) % num_slots ≡ i =
            ap (λ n. n % num_slots) (omega (arith, leb→le lv.position i ahead))
            ∙ mod-eq_of_lt i_lt in
          at_offset k (omega arith) round
      | inr behind ↦
          let before = leb_false→lt lv.position i behind in
          let low = (inv.shape.within l lv at_level).0 in
          let k : ℕ = i + num_slots - lv.position in
          let round : (lv.position + k) % num_slots ≡ i =
            ap (λ n. n % num_slots) (omega (arith, before, low))
            ∙ add-mod_right i num_slots
            ∙ mod-eq_of_lt i_lt in
          at_offset k (omega (arith, before, low)) round
    ]
      where
        at_offset :
            (k : ℕ)
            → k < num_slots
            → (lv.position + k) % num_slots ≡ i
            → (list : EntryList) × (get_elem? lv.slots i ≡ some list)
              × (next_of (slab.get w.timers list.head) ≡ some empty_index)
        at_offset k k_lt round =
            let empty = all k (omega arith) k_lt in
            (
              empty.list,
              subst (λ n. get_elem? lv.slots n ≡ some empty.list) round empty.at_slot,
              empty.at_next,
            )
