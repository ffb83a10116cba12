-- ===== src/TimerWheel/Starting.antt =====
-- What `start_timer_unchecked` does to a wheel.
use vpp_plugin_rs.TimerWheel.Links.{
  linked-rest, linked-IsLinked, linked-data, data_of, is_timer, Chain, IsLinked, linked,
}
use vpp_plugin_rs.TimerWheel.Expiry.{was_before, Expires-none, head_after, Expires, IsWheel}
use vpp_plugin_rs.Prelude.{
  fun_ext, subst, ap, ◌-◌, sym, ◌∙◌, ℕ, ◌≤◌, ◌≡◌, ◌≢◌, refl, Bool, false, List, [], some, arith,
}
use vpp_plugin_rs.Outcome.Laws.{sub_word-ok}
use vpp_plugin_rs.Outcome.{ok, usize_mod}
use vpp_plugin_rs.TimerWheel.Store.{data-there, link-view}
use vpp_plugin_rs.TimerWheel.Placement.{get_elem?_lt, place_lem, Inside}
use vpp_plugin_rs.TimerWheel.Slab.{Slab, IsSlab}
use vpp_plugin_rs.TimerWheel.Entries.{empty_index, head, timer, TimerEntry, link}
use vpp_plugin_rs.TimerWheel.Wheel.{TimerWheel, place, head_of}
use vpp_plugin_rs.TimerWheel.Timers.{start_timer_unchecked, remaining}

module _ {T S : Type 0} (slab : Slab (TimerEntry T) S) (law : IsSlab slab) (checks : Bool)
    (num_levels num_slots : ℕ) where
  pub head_of_lem :
      (w : TimerWheel S) (pending : ℕ) (at : ℕ × ℕ)
      → IsWheel slab num_levels num_slots w pending
      → Inside num_levels num_slots at
      → (h : ℕ) × (head_of w.levels at ≡ ok h) × (data_of (slab.get w.timers h) ≡ some head)
  unfolding head_of
  head_of_lem w pending (l, i) inv inside =
      let shape = inv.shape in
      let (lv, at_level) = get_elem?_lt w.levels l (omega (arith, shape.count, inside.0)) in
      let (low, slots) = shape.within l lv at_level in
      let (list, at_slot) = get_elem?_lt lv.slots i (omega (arith, slots, inside.1)) in
      (list.head, rw (at_level, at_slot) refl, inv.heads l lv i list at_level at_slot)

  -- The wheel after entries were linked anew or expired.
  pub expired-IsWheel :
      (w : TimerWheel S) (s : S) (pending pending' : ℕ) (out : List T)
      → IsWheel slab num_levels num_slots w pending
      → IsLinked (slab.get s) pending'
      → Expires w.current_time (slab.get w.timers) (slab.get s) out
      → IsWheel slab num_levels num_slots (record w { timers = s }) pending'
  expired-IsWheel w s pending pending' out inv c a = record {
    links = c;
    shape = inv.shape;
    heads = λ l lv i list at_level at_slot.
        head_after w.current_time (slab.get w.timers) (slab.get s) out list.head a
          (inv.heads l lv i list at_level at_slot);
    clock = inv.clock;
    times = λ j time context is.
        inv.times j time context
          (was_before w.current_time (slab.get w.timers) (slab.get s) out j time context a is);
  }

  -- The timer is put into a list; what is pending then is what stood behind it.
  pub record Starts (w : TimerWheel S) (index next : ℕ) : Type 0 where
    pub timers : S
    pub runs :
        start_timer_unchecked slab checks num_levels num_slots w index
        ≡ ok (record w { timers = timers })
    pub valid : IsWheel slab num_levels num_slots (record w { timers = timers }) next
    pub same_data : (j : ℕ) → data_of (slab.get timers j) ≡ data_of (slab.get w.timers j)
    pub behind : (ts : List ℕ) → Chain (slab.get w.timers) next ts → Chain (slab.get timers) next ts

  module _ (w : TimerWheel S) (index time : ℕ) (c : T) (e : TimerEntry T)
      (inv : IsWheel slab num_levels num_slots w index) (used : index ≢ empty_index)
      (at : slab.get w.timers index ≡ some e) (a_timer : e.entry_data ≡ timer time c) where
    linked-Starts :
        (s : S) (h delta : ℕ) (eh : TimerEntry T) (at_slot : ℕ × ℕ)
        → slab.get w.timers h ≡ some eh
        → eh.entry_data ≡ head
        → remaining slab checks num_levels num_slots w e.entry_data ≡ ok delta
        → place checks num_levels num_slots w.levels delta ≡ ok at_slot
        → head_of w.levels at_slot ≡ ok h
        → link slab w.timers h index ≡ ok s
        → ((j : ℕ) → slab.get s j ≡ linked (slab.get w.timers) h index eh e j)
        → Starts w index e.next
    unfolding start_timer_unchecked
    linked-Starts s h delta eh at_slot at_head a_head p₁ p₂ p₃ p₄ view =
        let not_timer : is_timer (slab.get w.timers h) ≡ false = ground (arith, at_head, a_head) in
        let same : (j : ℕ) → data_of (slab.get s j) ≡ data_of (slab.get w.timers j) = λ j.
          ap data_of (view j)
          ∙ linked-data (slab.get w.timers) h index eh e inv.links at_head at not_timer used j in
        record {
          timers = s;
          runs = rw (at, p₁, p₂, p₃, p₄) refl;
          valid =
              expired-IsWheel w s index e.next [] inv
                (subst (λ g. IsLinked g e.next) (sym (fun_ext view))
                  (linked-IsLinked (slab.get w.timers) h index eh e inv.links at_head at not_timer
                    used))
                (Expires-none w.current_time (slab.get w.timers) (slab.get s) same);
          same_data = same;
          behind = λ ts r.
              subst (λ g. Chain g e.next ts) (sym (fun_ext view))
                (linked-rest (slab.get w.timers) h index eh e inv.links at_head at not_timer used ts
                  r);
        }

    pub start_timer_unchecked_lem : w.current_time ≤ time → Starts w index e.next
    start_timer_unchecked_lem le =
        let (at_slot, p₂, inside) =
          place_lem checks num_levels num_slots w.levels inv.shape (time - w.current_time) in
        let (h, p₃, head_data) = head_of_lem w index at_slot inv inside in
        let (eh, at_head, a_head) = data-there (slab.get w.timers h) head head_data in
        let not_timer : is_timer (slab.get w.timers h) ≡ false = ground (arith, at_head, a_head) in
        let (s, p₄, view) =
          link-view slab law w.timers h index eh e inv.links at_head at not_timer used in
        linked-Starts s h (time - w.current_time) eh at_slot at_head a_head
          (rw a_timer (sub_word-ok checks usize_mod time w.current_time le)) p₂ p₃ p₄ view
