-- ===== src/TimerWheel/Earliest.antt =====
-- What `next_expiration` of a timer wheel finds: the least time in the first slot that is not empty.
use vpp_plugin_rs.TimerWheel.FirstSlot.{
  Ends, IsEmptyFrom, IsFirst, WasFound, search_slots_lem, slot-IsEmpty,
}
use vpp_plugin_rs.Prelude.{
  Bool-cases, subst, ℕ, zero, suc, ◌+◌, ◌≤◌, ◌<◌, ◌≡◌, inl, inr, refl, Bool, Option, none, some,
  get_elem?, ◌==◌, arith,
}
use vpp_plugin_rs.TimerWheel.Search.{search_slots, search_levels, next_expiration, or_else}
use vpp_plugin_rs.TimerWheel.Placement.{get_elem?_lt}
use vpp_plugin_rs.Outcome.{ok}
use vpp_plugin_rs.TimerWheel.Slab.{Slab}
use vpp_plugin_rs.TimerWheel.Entries.{empty_index, TimerEntry}
use vpp_plugin_rs.TimerWheel.Wheel.{EntryList, Level, TimerWheel}
use vpp_plugin_rs.TimerWheel.Links.{next_of}
use vpp_plugin_rs.TimerWheel.Expiry.{IsWheel}

module _ {T S : Type 0} (slab : Slab (TimerEntry T) S) (checks : Bool) (num_levels num_slots : ℕ)
    (w : TimerWheel S) where
  -- The first level with timers, of those from a level on, has this time first.
  pub record IsLowest (from time : ℕ) : Type 0 where
    pub index : ℕ
    pub level : Level
    pub after : from ≤ index
    pub passed :
        (l : ℕ) (lv : Level)
        → from ≤ l
        → l < index
        → get_elem? w.levels l ≡ some lv
        → IsEmptyFrom slab checks num_levels num_slots w lv 0
    pub at_level : get_elem? w.levels index ≡ some level
    pub is_first : IsFirst slab checks num_levels num_slots w level 0 time

  abbrev pub IsEarliest : ℕ → Option ℕ → Type 0
  IsEarliest from none =
      (l : ℕ) (lv : Level)
      → from ≤ l
      → l < num_levels
      → get_elem? w.levels l ≡ some lv
      → IsEmptyFrom slab checks num_levels num_slots w lv 0
  IsEarliest from (some time) = IsLowest from time

  level-run :
      (fuel count l : ℕ) (lv : Level) (found : Option (Option ℕ)) (r : Option ℕ)
      → get_elem? w.levels l ≡ some lv
      → search_slots slab checks num_levels num_slots fuel w.timers lv num_slots 0 ≡ ok found
      → or_else found
          (search_levels slab checks num_levels num_slots fuel w.timers w.levels count (l + 1))
        ≡ ok r
      → search_levels slab checks num_levels num_slots fuel w.timers w.levels (suc count) l ≡ ok r
  unfolding search_levels
  level-run fuel count l lv found r at p q = rw (at, p) q

  module _ (inv : IsWheel slab num_levels num_slots w empty_index) where
    search_levels_lem :
        (count l : ℕ)
        → l + count ≡ num_levels
        → Ends
            (IsEarliest l)
            (λ fuel. search_levels slab checks num_levels num_slots fuel w.timers w.levels count l)
    search_levels_lem zero l total =
        (0, none, λ fuel h. unfold search_levels in refl, λ m lv h m_lt. absurd (omega arith))
    search_levels_lem (suc count) l total =
        let (lv, at_level) = get_elem?_lt w.levels l (omega (arith, inv.shape.count, total)) in
        let (enough, found, runs, was) =
          search_slots_lem slab checks num_levels num_slots w inv l lv num_slots 0 at_level
            (omega arith) in
        let (enough', r, runs', is) = search_levels_lem count (l + 1) (omega arith) in
        by_found lv at_level enough found runs was enough' r runs' is
      where
        passed-level :
            (lv : Level)
            → get_elem? w.levels l ≡ some lv
            → IsEmptyFrom slab checks num_levels num_slots w lv 0
            → (m : ℕ) (lv' : Level) → get_elem? w.levels m ≡ some lv'
            → l ≤ m
            → (l + 1 ≤ m → IsEmptyFrom slab checks num_levels num_slots w lv' 0)
            → IsEmptyFrom slab checks num_levels num_slots w lv' 0
        passed-level lv at empty m lv' at' h later = elim (Bool-cases (l == m)) [
          | inl same ↦
              let same' : l ≡ m = ground (arith, same) in
              let at'' : get_elem? w.levels m ≡ some lv =
                subst (λ m. get_elem? w.levels m ≡ some lv) same' at in
              subst (λ x. IsEmptyFrom slab checks num_levels num_slots w x 0) (cc (at', at'')) empty
          | inr other ↦ later (ground (arith, other, h))
        ]

        by_rest :
            (lv : Level)
            → get_elem? w.levels l ≡ some lv
            → IsEmptyFrom slab checks num_levels num_slots w lv 0
            → (r : Option ℕ) → IsEarliest (l + 1) r
            → IsEarliest l r
        by_rest lv at empty none rest =
            λ m lv' h m_lt at'. passed-level lv at empty m lv' at' h (λ h'. rest m lv' h' m_lt at')
        by_rest lv at empty (some time) rest = record {
          index = rest.index;
          level = rest.level;
          after = omega (arith, rest.after);
          passed = λ m lv' h m_lt at'.
              passed-level lv at empty m lv' at' h (λ h'. rest.passed m lv' h' m_lt at');
          at_level = rest.at_level;
          is_first = rest.is_first;
        }

        by_found :
            (lv : Level)
            → get_elem? w.levels l ≡ some lv
            → (enough : ℕ) (found : Option (Option ℕ))
            → ((fuel : ℕ)
                → enough ≤ fuel
                → search_slots slab checks num_levels num_slots fuel w.timers lv num_slots 0
                  ≡ ok found)
            → WasFound slab checks num_levels num_slots w lv 0 found
            → (enough' : ℕ) (r : Option ℕ)
            → ((fuel : ℕ)
                → enough' ≤ fuel
                → search_levels slab checks num_levels num_slots fuel w.timers w.levels count
                    (l + 1)
                  ≡ ok r)
            → IsEarliest (l + 1) r
            → Ends (IsEarliest l) (λ fuel.
              search_levels slab checks num_levels num_slots fuel w.timers w.levels (suc count) l)
        by_found lv at enough none runs was enough' r runs' is = (
          enough + enough',
          r,
          λ fuel h.
              level-run fuel count l lv none r at (runs fuel (omega arith))
                (runs' fuel (omega arith)),
          by_rest lv at was r is,
        )
        by_found lv at enough (some none) runs was enough' r runs' is = absurd was
        by_found lv at enough (some (some time)) runs was enough' r runs' is = (
          enough,
          some time,
          λ fuel h. level-run fuel count l lv (some (some time)) (some time) at (runs fuel h) refl,
          record {
            index = l;
            level = lv;
            after = omega arith;
            passed = λ m lv' h m_lt at'. absurd (omega (arith, h, m_lt));
            at_level = at;
            is_first = was;
          },
        )

    -- next_expiration on a valid wheel comes to an end, from some fuel on always with the same
    -- result. A time is the least of the times in the first slot that has timers, where the lowest
    -- level comes first and in each level its slots from its position on: it is that of a timer of
    -- this slot, no timer of the slot has a time before it, and every slot searched before is
    -- empty. None comes out only where every slot of every level is empty.
    pub next_expiration_lem :
        (enough : ℕ) × (r : Option ℕ) × ((fuel : ℕ)
          → enough ≤ fuel
          → next_expiration slab checks num_levels num_slots fuel w ≡ ok r)
        × IsEarliest 0 r
        × (r ≡ none
            → (l : ℕ) (lv : Level) (i : ℕ) → l < num_levels
            → get_elem? w.levels l ≡ some lv
            → i < num_slots
            → (list : EntryList) × (get_elem? lv.slots i ≡ some list)
              × (next_of (slab.get w.timers list.head) ≡ some empty_index))
    unfolding next_expiration
    next_expiration_lem =
        let (enough, r, runs, earliest) = search_levels_lem num_levels 0 (omega arith) in
        (
          enough,
          r,
          runs,
          earliest,
          λ e l lv i l_lt at i_lt.
              let nowhere : IsEarliest 0 none = subst (λ r. IsEarliest 0 r) e earliest in
              slot-IsEmpty slab checks num_levels num_slots w inv l lv i at i_lt
                (nowhere l lv (omega arith) l_lt at),
        )
