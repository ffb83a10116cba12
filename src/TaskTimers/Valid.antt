-- ===== src/TaskTimers/Valid.antt =====
-- The invariant of the timers of process_node/tw_timer.rs: the states and the wheel tell the same.
use vpp_plugin_rs.Prelude.{
  Bool-cases, ℕ, ◌≤◌, ◌≡◌, sym, ◌∙◌, false, Option, none, some, List, ◌⊎◌, inl, inr, if◌then◌else◌,
  arith,
}
use vpp_plugin_rs.TimerWheel.Slab.{Slab}
use vpp_plugin_rs.TimerWheel.Entries.{TimerEntry, timer, empty_index}
use vpp_plugin_rs.TimerWheel.Links.{Entries, data_of}
use vpp_plugin_rs.TimerWheel.Expiry.{IsWheel, Expires}
use vpp_plugin_rs.TaskTimers.{TimerState, TaskWheel, running, expired}
use vpp_plugin_rs.TaskTimers.Marks.{marked, is_among, is_among-Among, Among-is_among}

-- The timer `h` runs in the wheel, where it has a time, under the handle `j`.
pub record IsRunning (g : Entries ℕ) (h : ℕ) (e : TimerState) : Type 0 where
  pub handle : ℕ
  pub time : ℕ
  pub is : e ≡ running handle
  pub there : data_of (g handle) ≡ some (timer time h)

-- Every state is of a timer that runs or is ready, and every timer of the wheel has its state.
pub record IsMatched (states : ℕ → Option TimerState) (g : Entries ℕ) : Type 0 where
  pub each : (h : ℕ) (e : TimerState) → states h ≡ some e → (e ≡ expired) ⊎ IsRunning g h e
  pub owned : (j time h : ℕ) → data_of (g j) ≡ some (timer time h) → states h ≡ some (running j)

pub record IsTimers {S R : Type 0} (slab : Slab (TimerEntry ℕ) S) (states : Slab TimerState R)
    (num_levels num_slots : ℕ) (w : TaskWheel S R) : Type 0 where
  pub valid : IsWheel slab num_levels num_slots w.wheel empty_index
  pub clock : w.wheel.current_time ≡ w.previous_ticks
  pub matched : IsMatched (states.get w.entries) (slab.get w.wheel.timers)

-- What the passing of time makes of a timer: it stays as it was, or was running and is ready, its time
-- having come.
abbrev pub BecomesReady : ℕ → Entries ℕ → Option TimerState → Option TimerState → ℕ → Type 0
BecomesReady now g before after h =
    (j : ℕ) × (time : ℕ) × (before ≡ some (running j))
    × (data_of (g j) ≡ some (timer time h))
    × (time ≤ now)
    × (after ≡ some expired)

abbrev pub after_marks : (ℕ → Option TimerState) → List ℕ → ℕ → Option TimerState
after_marks before out h = if is_among h out then marked (before h) else before h

module _ (now : ℕ) (before : ℕ → Option TimerState) (g g' : Entries ℕ) (out : List ℕ)
    (m : IsMatched before g) (x : Expires now g g' out) where
  stays-IsRunning :
      (h : ℕ) (e : TimerState) → is_among h out ≡ false → IsRunning g h e → IsRunning g' h e
  stays-IsRunning h e kept r = elim (x.each r.handle) [
    | inl same ↦ record { handle = r.handle; time = r.time; is = r.is; there = same ∙ r.there }
    | inr gone ↦
        let back = Among-is_among gone.context out gone.returned in
        let was = gone.was in let there = r.there in absurd (ground (arith, back, was, there, kept))
  ]

  kept_each :
      (h : ℕ) (e : TimerState)
      → is_among h out ≡ false
      → (e ≡ expired) ⊎ IsRunning g h e
      → (e ≡ expired) ⊎ IsRunning g' h e
  kept_each h e kept (inl done) = inl done
  kept_each h e kept (inr r) = inr (stays-IsRunning h e kept r)

  marked-expired : (o : Option TimerState) (e : TimerState) → marked o ≡ some e → e ≡ expired
  marked-expired none e at = absurd (cc)
  marked-expired (some e') e at = cc

  passed_each :
      (h : ℕ) (e : TimerState)
      → after_marks before out h ≡ some e
      → (e ≡ expired) ⊎ IsRunning g' h e
  passed_each h e at = elim (Bool-cases (is_among h out)) [
    | inl among ↦ inl (marked-expired (before h) e (ground (arith, at, among)))
    | inr kept ↦ kept_each h e kept (m.each h e (ground (arith, at, kept)))
  ]

  -- A timer that is in the wheel afterwards is not among those that expired.
  there_kept :
      (j time h : ℕ)
      → data_of (g j) ≡ some (timer time h)
      → data_of (g' j) ≡ some (timer time h)
      → is_among h out ≡ false
  there_kept j time h was at = elim (Bool-cases (is_among h out)) [
    | inl among ↦
        let (j', time', was', due, gone) = x.only h (is_among-Among h out among) in
        let mine = m.owned j time h was in
        let its = m.owned j' time' h was' in absurd (ground (arith, mine, its, gone, at))
    | inr kept ↦ kept
  ]

  passed_owned :
      (j time h : ℕ)
      → data_of (g' j) ≡ some (timer time h)
      → after_marks before out h ≡ some (running j)
  passed_owned j time h at = elim (x.each j) [
    | inl same ↦
        let was = sym same ∙ at in
        let kept = there_kept j time h was at in
        let mine = m.owned j time h was in ground (arith, kept, mine)
    | inr gone ↦ let none_there = gone.gone in absurd (ground (arith, none_there, at))
  ]

  pub passed-IsMatched : IsMatched (after_marks before out) g'
  passed-IsMatched = record { each = passed_each; owned = passed_owned }

  -- No timer becomes ready before its time.
  pub passed_lem :
      (h : ℕ)
      → (after_marks before out h ≡ before h)
        ⊎ BecomesReady now g (before h) (after_marks before out h) h
  passed_lem h = elim (Bool-cases (is_among h out)) [
    | inl among ↦
        let (j, time, was, due, gone) = x.only h (is_among-Among h out among) in
        let its = m.owned j time h was in inr (j, time, its, was, due, ground (arith, its, among))
    | inr kept ↦ inl (ground (arith, kept))
  ]
