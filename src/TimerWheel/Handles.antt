-- ===== src/TimerWheel/Handles.antt =====
-- Timers are started and stopped by their handles.
use vpp_plugin_rs.TimerWheel.Entries.{unlink, empty_index, timer, TimerEntry}
use vpp_plugin_rs.TimerWheel.Timers.{
  start_timer_unchecked, insert_timer, start_inserted, start_timer, start_timer_absolute,
  stop_timer,
}
use vpp_plugin_rs.Prelude.{
  ap, ◌∙◌, leb_false→lt, leb→le, fun_ext, sym, leb, lt→ltb, subst, Bool-cases, ℕ, ◌+◌, ◌%◌, ◌≤◌,
  ◌<◌, ◌≡◌, ◌⊎◌, inl, inr, refl, Bool, true, none, some, if◌then◌else◌, ◌==◌, arith,
}
use vpp_plugin_rs.Outcome.{ok, usize_mod, u32_mod}
use vpp_plugin_rs.TimerWheel.Slab.{Slab, IsSlab}
use vpp_plugin_rs.TimerWheel.Wheel.{TimerWheel}
use vpp_plugin_rs.TimerWheel.Links.{Entries, data_of, is_timer, IsLinked}
use vpp_plugin_rs.TimerWheel.Frames.{inserted, inserted-IsLinked}
use vpp_plugin_rs.TimerWheel.Unlinks.{unlinked, unlinked-IsLinked}
use vpp_plugin_rs.TimerWheel.Store.{unlink-view, data-there}
use vpp_plugin_rs.TimerWheel.Expiry.{IsWheel}
use vpp_plugin_rs.TimerWheel.Starting.{start_timer_unchecked_lem}

module _ {T S : Type 0} (slab : Slab (TimerEntry T) S) (law : IsSlab slab) (checks : Bool)
    (num_levels num_slots : ℕ) where
  -- The wheel with one timer more.
  pub record Started (w : TimerWheel S) (key time : ℕ) (c : T) (w' : TimerWheel S) : Type 0 where
    pub valid : IsWheel slab num_levels num_slots w' empty_index
    pub same_time : w'.current_time ≡ w.current_time
    pub data_after :
        (j : ℕ)
        → data_of (slab.get w'.timers j)
          ≡ (if key == j then some (timer time c) else data_of (slab.get w.timers j))

  start_inserted-run :
      (w w' : TimerWheel S) (key : ℕ) (s : S)
      → key % u32_mod ≡ key
      → start_timer_unchecked slab checks num_levels num_slots (record w { timers = s }) key ≡ ok w'
      → start_inserted slab checks num_levels num_slots w (key, s) ≡ ok (key, w')
  start_inserted-run w w' key s same runs = rw (same, runs) refl

  module _ (w : TimerWheel S) (key time : ℕ) (c : T) (s : S)
      (inv : IsWheel slab num_levels num_slots w empty_index) (future : w.current_time ≤ time)
      (small : time < usize_mod) (few : key < empty_index)
      (p : insert_timer slab checks num_levels num_slots w time c ≡ (key, s)) where
    abbrev fresh : TimerEntry T
    fresh = record { next = empty_index; previous = empty_index; entry_data = timer time c }

    vacant : slab.get w.timers key ≡ none
    vacant = law.vacant w.timers fresh key s p

    view : (j : ℕ) → slab.get s j ≡ inserted (slab.get w.timers) key fresh j
    view = law.get_insert w.timers fresh key s p

    inserted-IsWheel : IsWheel slab num_levels num_slots (record w { timers = s }) key
    inserted-IsWheel = record {
      links =
          subst (λ g. IsLinked g key) (sym (fun_ext view))
            (inserted-IsLinked (slab.get w.timers) key fresh inv.links vacant
              (λ e. omega (arith, e, few)) refl refl);
      shape = inv.shape;
      heads = λ l lv i list at in_slot.
          let was = inv.heads l lv i list at in_slot in
          let v = view list.head in let no_entry = vacant in ground (arith, was, v, no_entry);
      clock = inv.clock;
      times = λ j t context is.
          let v = view j in
          let before = inv.times j t context in ground (arith, is, v, before, small);
    }

    start_inserted_lem :
        (w' : TimerWheel S) × (start_inserted slab checks num_levels num_slots w (key, s)
          ≡ ok (key, w'))
        × Started w key time c w'
    start_inserted_lem =
        let same_key : key % u32_mod ≡ key = omega (arith, few) in
        let at : slab.get s key ≡ some fresh = let v = view key in ground (arith, v) in
        let r =
          start_timer_unchecked_lem slab law checks num_levels num_slots (record w { timers = s })
            key time c fresh inserted-IsWheel (λ e. omega (arith, e, few)) at refl future in
        (
          record w { timers = r.timers },
          start_inserted-run w (record w { timers = r.timers }) key s same_key r.runs,
          record {
            valid = r.valid;
            same_time = refl;
            data_after = λ j. let v = view j in let same = r.same_data j in ground (arith, v, same);
          },
        )

  -- start_timer on a valid wheel gives the key of the slab as the handle and leaves a valid wheel
  -- with the timer under it and every other entry as it was. The time is below 2^64 and the key
  -- below 2^32 - 1, and the slab is as the crate slab documents it.
  pub start_timer_lem :
      (w : TimerWheel S) (interval key : ℕ) (c : T) (s : S)
      → IsWheel slab num_levels num_slots w empty_index
      → w.current_time + interval < usize_mod
      → key < empty_index
      → insert_timer slab checks num_levels num_slots w (w.current_time + interval) c ≡ (key, s)
      → (w' : TimerWheel S) × (start_timer slab checks num_levels num_slots w interval c
          ≡ ok (key, w'))
        × Started w key (w.current_time + interval) c w'
  unfolding start_timer
  start_timer_lem w interval key c s inv small few p =
      let (w', q, started) =
        start_inserted_lem w key (w.current_time + interval) c s inv (omega arith) small few p in
      (w', rw (lt→ltb (w.current_time + interval) usize_mod small, p) q, started)

  -- start_timer_absolute gives the context back and changes nothing where the time has come, and
  -- else starts the timer as start_timer does. The wheel is valid, the time is below 2^64 and the
  -- key below 2^32 - 1, and the slab is as the crate slab documents it.
  pub start_timer_absolute_lem :
      (w : TimerWheel S) (time key : ℕ) (c : T) (s : S)
      → IsWheel slab num_levels num_slots w empty_index
      → time < usize_mod
      → key < empty_index
      → insert_timer slab checks num_levels num_slots w time c ≡ (key, s)
      → ((time ≤ w.current_time)
          × (start_timer_absolute slab checks num_levels num_slots w time c ≡ ok (inr (c, w))))
        ⊎ ((w.current_time < time)
            × ((w' : TimerWheel S) × (start_timer_absolute slab checks num_levels num_slots w time c
                  ≡ ok (inl (key, w')))
                × Started w key time c w'))
  unfolding start_timer_absolute
  start_timer_absolute_lem w time key c s inv small few p =
      elim (Bool-cases (leb time w.current_time)) [
        | inl past ↦ inl (leb→le time w.current_time past, rw past refl)
        | inr later ↦
            let lt = leb_false→lt time w.current_time later in
            let (w', q, started) =
              start_inserted_lem w key time c s inv (omega (arith, lt)) small few p in
            inr (lt, (w', rw (later, p, q) refl, started))
      ]

  -- The wheel without one timer.
  pub record Stopped (w : TimerWheel S) (handle : ℕ) (w' : TimerWheel S) : Type 0 where
    pub valid : IsWheel slab num_levels num_slots w' empty_index
    pub same_time : w'.current_time ≡ w.current_time
    pub data_after :
        (j : ℕ)
        → data_of (slab.get w'.timers j)
          ≡ (if handle == j then none else data_of (slab.get w.timers j))

  stop_timer-run :
      (w : TimerWheel S) (handle time : ℕ) (c : T) (e e' : TimerEntry T) (s : S)
      → slab.get w.timers handle ≡ some e
      → e.entry_data ≡ timer time c
      → unlink slab w.timers e ≡ ok s
      → slab.get s handle ≡ some e'
      → e'.entry_data ≡ timer time c
      → stop_timer slab checks num_levels num_slots w handle
        ≡ ok (some c, record w { timers = slab.remove s handle })
  unfolding stop_timer unlink
  stop_timer-run w handle time c e e' s at a_timer p at' a_timer' =
      rw (at, a_timer, p, at', a_timer') refl

  unlinked-data :
      (g : Entries T) (t : ℕ) (e : TimerEntry T) (j : ℕ)
      → data_of (unlinked g t e j) ≡ (if t == j then none else data_of (g j))
  unlinked-data g t e j = ground arith

  module _ (w : TimerWheel S) (handle time : ℕ) (c : T)
      (inv : IsWheel slab num_levels num_slots w empty_index)
      (runs : data_of (slab.get w.timers handle) ≡ some (timer time c)) where
    removed-IsWheel :
        (s : S) (e : TimerEntry T)
        → slab.get w.timers handle ≡ some e
        → is_timer (slab.get w.timers handle) ≡ true
        → ((j : ℕ) → slab.get s j ≡ unlinked (slab.get w.timers) handle e j)
        → Stopped w handle (record w { timers = s })
    removed-IsWheel s e at a_timer view =
        let after : (j : ℕ)
            → data_of (slab.get s j)
              ≡ (if handle == j then none else data_of (slab.get w.timers j)) =
          λ j. ap data_of (view j) ∙ unlinked-data (slab.get w.timers) handle e j in
        record {
          valid = record {
            links =
                subst (λ g. IsLinked g empty_index) (sym (fun_ext view))
                  (unlinked-IsLinked (slab.get w.timers) handle e inv.links at a_timer);
            shape = inv.shape;
            heads = λ l lv i list at_level in_slot.
                let was = inv.heads l lv i list at_level in_slot in
                let now = after list.head in ground (arith, was, now, runs);
            clock = inv.clock;
            times = λ j t context is.
                let now = after j in
                let before = inv.times j t context in ground (arith, is, now, before);
          };
          same_time = refl;
          data_after = after;
        }

    -- stop_timer on the handle of a timer in a valid wheel gives its context and leaves a valid
    -- wheel without that timer, in which every other entry has the contents it had. The slab is as
    -- the crate slab documents it.
    pub stop_timer_lem :
        (w' : TimerWheel S) × (stop_timer slab checks num_levels num_slots w handle
          ≡ ok (some c, w'))
        × Stopped w handle w'
    stop_timer_lem =
        let (e, at, a_timer) = data-there (slab.get w.timers handle) (timer time c) runs in
        let is : is_timer (slab.get w.timers handle) ≡ true = ground (arith, at, a_timer) in
        let (s, p, data_at, view) = unlink-view slab law w.timers handle e inv.links at is in
        let (e', at', a_timer') = data-there (slab.get s handle) e.entry_data data_at in
        (
          record w { timers = slab.remove s handle },
          stop_timer-run w handle time c e e' s at a_timer p at' (a_timer' ∙ a_timer),
          removed-IsWheel (slab.remove s handle) e at is view,
        )
