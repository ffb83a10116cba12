-- ===== src/TaskTimers/Stopping.antt =====
-- Stopping timers of process_node/tw_timer.rs, ready or running.
use vpp_plugin_rs.Prelude.{
  ℕ, ◌≡◌, refl, ap, ◌∙◌, Bool, none, some, inl, inr, if◌then◌else◌, ◌==◌, arith,
}
use vpp_plugin_rs.TaskTimers.{TimerWheel, TimerState, TaskWheel, expired, stop_timer}
use vpp_plugin_rs.Outcome.{ok}
use vpp_plugin_rs.TimerWheel.Slab.{Slab, IsSlab}
use vpp_plugin_rs.TimerWheel.Entries.{TimerEntry, timer}
use vpp_plugin_rs.TimerWheel.Links.{data_of}
use vpp_plugin_rs.TaskTimers.Changes.{stopped-IsMatched}
use vpp_plugin_rs.TaskTimers.Valid.{IsTimers, IsRunning}
use vpp_plugin_rs.TimerWheel.Handles

module _ {S R : Type 0} (slab : Slab (TimerEntry ℕ) S) (law : IsSlab slab)
    (states : Slab TimerState R) (states_law : IsSlab states) (checks : Bool)
    (num_levels num_slots : ℕ) where
  stop_ready-IsTimers :
      (w : TaskWheel S R) (h : ℕ)
      → IsTimers slab states num_levels num_slots w
      → states.get w.entries h ≡ some expired
      → IsTimers slab states num_levels num_slots (record w { entries = states.remove w.entries h })
  stop_ready-IsTimers w h inv at = record {
    valid = inv.valid;
    clock = inv.clock;
    matched =
        stopped-IsMatched (states.get w.entries) (states.get (states.remove w.entries h))
          (slab.get w.wheel.timers) (slab.get w.wheel.timers) h
          (λ j. states_law.get_remove w.entries h expired j at) (λ i t j was other. refl)
          (λ i t c was. (was, let mine = inv.matched.owned i t c was in ground (arith, mine, at)))
          inv.matched;
  }

  stop_running-IsTimers :
      (w : TaskWheel S R) (h : ℕ) (e : TimerState) (wheel : TimerWheel S)
      → IsTimers slab states num_levels num_slots w
      → states.get w.entries h ≡ some e
      → (q : IsRunning (slab.get w.wheel.timers) h e)
      → Handles.Stopped slab law checks num_levels num_slots w.wheel q.handle wheel
      → IsTimers slab states num_levels num_slots
          (record w { entries = states.remove w.entries h; wheel = wheel })
  stop_running-IsTimers w h e wheel inv at q st = record {
    valid = st.valid;
    clock = st.same_time ∙ inv.clock;
    matched =
        stopped-IsMatched (states.get w.entries) (states.get (states.remove w.entries h))
          (slab.get w.wheel.timers) (slab.get wheel.timers) h
          (λ j. states_law.get_remove w.entries h e j at)
          (λ i t j was other.
            let d = st.data_after i in let there = q.there in ground (arith, d, was, other, there))
          (λ i t c was.
            let d = st.data_after i in
            let back : data_of (slab.get w.wheel.timers i) ≡ some (timer t c) =
              ground (arith, d, was) in
            let mine = inv.matched.owned i t c back in
            let its = inv.matched.owned q.handle q.time h q.there in
            (back, ground (arith, mine, its, d, was)))
          inv.matched;
  }

  -- stop_timer on a handle that has a state, ready or running, succeeds on valid timers and leaves
  -- valid ones without that state and with all others. The slabs are as the crate slab documents
  -- them.
  pub stop_timer-IsTimers :
      (w : TaskWheel S R) (h : ℕ) (e : TimerState)
      → IsTimers slab states num_levels num_slots w
      → states.get w.entries h ≡ some e
      → (w' : TaskWheel S R) × (stop_timer slab states checks num_levels num_slots w h ≡ ok w')
        × IsTimers slab states num_levels num_slots w'
        × (w'.previous_ticks ≡ w.previous_ticks)
        × ((j : ℕ) → states.get w'.entries j ≡ (if h == j then none else states.get w.entries j))
  unfolding stop_timer
  stop_timer-IsTimers w h e inv at = elim (inv.matched.each h e at) [
    | inl done ↦ (
      record w { entries = states.remove w.entries h },
      rw (at, done) refl,
      stop_ready-IsTimers w h inv (at ∙ ap some done),
      refl,
      λ j. states_law.get_remove w.entries h e j at,
    )
    | inr q ↦
        let (wheel, runs, st) =
          Handles.stop_timer_lem slab law checks num_levels num_slots w.wheel q.handle q.time h
            inv.valid q.there in
        (
          record w { entries = states.remove w.entries h; wheel = wheel },
          rw (at, q.is, runs) refl,
          stop_running-IsTimers w h e wheel inv at q st,
          refl,
          λ j. states_law.get_remove w.entries h e j at,
        )
  ]
