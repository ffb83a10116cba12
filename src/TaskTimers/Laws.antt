-- ===== src/TaskTimers/Laws.antt =====
-- Starting and expiring timers of process_node/tw_timer.rs, and the timers that `init` leaves.
use vpp_plugin_rs.Prelude.{
  fun_ext, subst, ℕ, ◌+◌, ◌-◌, ◌<◌, ◌≤◌, ◌≡◌, ◌≢◌, refl, sym, ◌∙◌, Bool, true, false, none, some,
  List, ◌⊎◌, inl, inr, leb, if◌then◌else◌, ◌==◌, arith,
}
use vpp_plugin_rs.TaskTimers.{
  TimerWheel, TimerState, TaskWheel, running, expired, started, mark_all, init, start_timer,
  expire_timers,
}
use vpp_plugin_rs.Outcome.{usize_mod, ok}
use vpp_plugin_rs.TimerWheel.Slab.{Slab, IsSlab}
use vpp_plugin_rs.TimerWheel.Entries.{TimerEntry, timer, empty_index}
use vpp_plugin_rs.TimerWheel.Links.{data_of}
use vpp_plugin_rs.TimerWheel.Expiry.{IsWheel, Expires}
use vpp_plugin_rs.TaskTimers.Changes.{late-IsMatched, running-IsMatched}
use vpp_plugin_rs.TaskTimers.Marks.{get-mark_all}
use vpp_plugin_rs.TaskTimers.Valid.{
  IsTimers, IsMatched, BecomesReady, after_marks, passed-IsMatched, passed_lem,
}
use vpp_plugin_rs.TimerWheel.Ticking
use vpp_plugin_rs.TimerWheel.Handles
use vpp_plugin_rs.TimerWheel.Timers
use vpp_plugin_rs.TimerWheel.Setup

module _ {S R : Type 0} (slab : Slab (TimerEntry ℕ) S) (law : IsSlab slab)
    (states : Slab TimerState R) (states_law : IsSlab states) (checks : Bool)
    (num_levels num_slots : ℕ) where
  module _ (w : TaskWheel S R) (now : ℕ) (out : List ℕ) (wheel : TimerWheel S)
      (inv : IsTimers slab states num_levels num_slots w)
      (valid : IsWheel slab num_levels num_slots wheel empty_index)
      (time : wheel.current_time ≡ now)
      (x : Expires now (slab.get w.wheel.timers) (slab.get wheel.timers) out) where
    abbrev after : TaskWheel S R
    after = record {
      entries = mark_all slab states checks num_levels num_slots w.entries out;
      previous_ticks = now;
      wheel = wheel;
    }

    marks : (h : ℕ) → states.get after.entries h ≡ after_marks (states.get w.entries) out h
    marks = get-mark_all slab states states_law checks num_levels num_slots w.entries out

    after-IsTimers : IsTimers slab states num_levels num_slots after
    after-IsTimers = record {
      valid = valid;
      clock = time;
      matched =
          subst (λ f. IsMatched f (slab.get wheel.timers)) (sym (fun_ext marks))
            (passed-IsMatched now (states.get w.entries) (slab.get w.wheel.timers)
              (slab.get wheel.timers) out inv.matched x);
    }

    after_each :
        (h : ℕ)
        → (states.get after.entries h ≡ states.get w.entries h)
          ⊎ BecomesReady now
              (slab.get w.wheel.timers)
              (states.get w.entries h)
              (states.get after.entries h)
              h
    after_each h =
        subst
          (λ s.
            (s ≡ states.get w.entries h)
            ⊎ BecomesReady now (slab.get w.wheel.timers) (states.get w.entries h) s h)
          (sym (marks h))
          (passed_lem now (states.get w.entries) (slab.get w.wheel.timers) (slab.get wheel.timers)
            out inv.matched x h)

  -- expire_timers on valid timers, at a time not before that of the last call and below 2^64,
  -- comes to an end from some fuel on always with the same valid timers, which were last expired
  -- at that time; the state of each handle is as it was, or its timer was running with a time that
  -- has come and is ready now. The slabs are as the crate slab documents them.
  pub expire_timers-IsTimers :
      (w : TaskWheel S R) (now : ℕ)
      → IsTimers slab states num_levels num_slots w
      → w.previous_ticks ≤ now
      → now < usize_mod
      → (enough : ℕ) × (w' : TaskWheel S R) × ((fuel : ℕ)
          → enough ≤ fuel
          → expire_timers slab states checks num_levels num_slots fuel w now ≡ ok w')
        × IsTimers slab states num_levels num_slots w'
        × (w'.previous_ticks ≡ now)
        × ((h : ℕ)
            → (states.get w'.entries h ≡ states.get w.entries h)
              ⊎ BecomesReady now
                  (slab.get w.wheel.timers)
                  (states.get w.entries h)
                  (states.get w'.entries h)
                  h)
  unfolding expire_timers
  expire_timers-IsTimers w now inv forward small =
      let ticks = now - w.previous_ticks in
      let at_now : w.wheel.current_time + ticks ≡ now = omega (arith, inv.clock) in
      let (enough, out, wheel, runs, valid, time, x) =
        Ticking.expire_timers_lem slab law checks num_levels num_slots w.wheel ticks inv.valid
          (omega (arith, inv.clock)) in
      let x' =
        subst (λ t. Expires t (slab.get w.wheel.timers) (slab.get wheel.timers) out) at_now x in
      let at_time = time ∙ at_now in
      (
        enough,
        after w now out wheel inv valid at_time x',
        λ fuel h. rw (runs fuel h) refl,
        after-IsTimers w now out wheel inv valid at_time x',
        refl,
        after_each w now out wheel inv valid at_time x',
      )

  -- The state of a timer that was started for `time`.
  abbrev pub state_at : TaskWheel S R → ℕ → ℕ → TimerState
  state_at w time key = if leb time w.previous_ticks then expired else running key

  module _ (w : TaskWheel S R) (time h key : ℕ) (r : R) (s : S)
      (inv : IsTimers slab states num_levels num_slots w) (small : time < usize_mod)
      (few : key < empty_index) (put : states.insert w.entries started ≡ (h, r))
      (p : Timers.insert_timer slab checks num_levels num_slots w.wheel time h ≡ (key, s)) where
    view_put :
        (e : TimerState) (j : ℕ)
        → states.get (states.put r h e) j ≡ (if h == j then some e else states.get w.entries j)
    view_put e j =
        let at = states_law.get_insert w.entries started h r put h in
        let fresh : states.get r h ≡ some started = ground (arith, at) in
        let v = states_law.get_insert w.entries started h r put j in
        let u = states_law.get_put r h started e j fresh in ground (arith, u, v)

    vacant : states.get w.entries h ≡ none
    vacant = states_law.vacant w.entries started h r put

    -- start_timer on valid timers succeeds and leaves valid ones: the new handle is ready where
    -- the time is not after the last call of expire_timers and else runs in the wheel, and all
    -- other states are as they were. The time is below 2^64, and the key of the wheel's slab below
    -- 2^32 - 1. The slabs are as the crate slab documents them.
    pub start_timer-IsTimers :
        (w' : TaskWheel S R) × (start_timer slab states checks num_levels num_slots w time
          ≡ ok (h, w'))
        × IsTimers slab states num_levels num_slots w'
        × (w'.previous_ticks ≡ w.previous_ticks)
        × ((j : ℕ)
            → states.get w'.entries j
              ≡ (if h == j then some (state_at w time key) else states.get w.entries j))
    unfolding start_timer
    start_timer-IsTimers =
        elim (Handles.start_timer_absolute_lem slab law checks num_levels num_slots w.wheel time key
          h s inv.valid small few p) [
            | inl (late, e) ↦
                let over : leb time w.previous_ticks ≡ true =
                  let c = inv.clock in ground (arith, c, late) in
                (
                  record w { entries = states.put r h expired },
                  rw (put, e) refl,
                  record {
                    valid = inv.valid;
                    clock = inv.clock;
                    matched =
                        late-IsMatched (states.get w.entries) (states.get (states.put r h expired))
                          (slab.get w.wheel.timers) h vacant (view_put expired) inv.matched;
                  },
                  refl,
                  λ j. rw over (view_put expired j),
                )
            | inr (early, (wheel, e, st)) ↦
                let ahead : leb time w.previous_ticks ≡ false =
                  let c = inv.clock in ground (arith, c, early) in
                (
                  record w { entries = states.put r h (running key); wheel = wheel },
                  rw (put, e) refl,
                  record {
                    valid = st.valid;
                    clock = st.same_time ∙ inv.clock;
                    matched =
                        running-IsMatched (states.get w.entries)
                          (states.get (states.put r h (running key))) (slab.get w.wheel.timers)
                          (slab.get wheel.timers) h key time vacant
                          (law.vacant w.wheel.timers _ key s p) (view_put (running key))
                          st.data_after inv.matched;
                  },
                  refl,
                  λ j. rw ahead (view_put (running key) j),
                )
          ]

  -- The timers that `init` leaves are valid, where the wheel is and holds none.
  pub init-IsTimers :
      IsWheel slab num_levels num_slots (Setup.init slab num_levels num_slots) empty_index
      → ((j time c : ℕ)
          → data_of (slab.get (Setup.init slab num_levels num_slots).timers j)
            ≢ some (timer time c))
      → IsTimers slab states num_levels num_slots (init slab states checks num_levels num_slots)
  unfolding init Setup.init
  init-IsTimers valid unused = record {
    valid = valid;
    clock = refl;
    matched = record {
      each = λ h e at. let n = states_law.get_new h in absurd (ground (arith, n, at));
      owned = λ j t c at. absurd (unused j t c at);
    };
  }
