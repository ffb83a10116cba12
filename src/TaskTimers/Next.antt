-- ===== src/TaskTimers/Next.antt =====
-- What `next_expiration` of process_node/tw_timer.rs makes of the time that the wheel gives.
use vpp_plugin_rs.Prelude.{
  leb_false→lt, leb→le, Bool-cases, ℕ, ◌+◌, ◌-◌, ◌%◌, ◌<◌, ◌≤◌, ◌≡◌, refl, Bool, Option, none, some,
  ◌⊎◌, inl, inr, leb, if◌then◌else◌, arith,
}
use vpp_plugin_rs.Outcome.{usize_mod, Outcome, ok, panicked}
use vpp_plugin_rs.TimerWheel.Slab.{Slab, IsSlab}
use vpp_plugin_rs.TimerWheel.Entries.{TimerEntry, timer}
use vpp_plugin_rs.TimerWheel.Links.{data_of}
use vpp_plugin_rs.TaskTimers.{TimerState, TaskWheel, running, since, next_expiration}
use vpp_plugin_rs.TaskTimers.Valid.{IsTimers}
use vpp_plugin_rs.TimerWheel.Earliest.{IsEarliest, next_expiration_lem}

module _ {S R : Type 0} (slab : Slab (TimerEntry ℕ) S) (states : Slab TimerState R)
    (law : IsSlab slab) (checks : Bool) (num_levels num_slots : ℕ) where
  -- What becomes of a time that the wheel gives: that of a running timer, as ticks after the last
  -- call of `expire_timers`; where it lies before that call the subtraction overflows.
  abbrev pub IsNext : TaskWheel S R → Option ℕ → Outcome (Option ℕ) → Type 0
  IsNext w none out = out ≡ ok none
  IsNext w (some time) out =
      ((h : ℕ) × (j : ℕ) × (states.get w.entries h ≡ some (running j))
        × (data_of (slab.get w.wheel.timers j) ≡ some (timer time h)))
      × (((w.previous_ticks ≤ time) × (out ≡ ok (some (time - w.previous_ticks))))
          ⊎ ((time < w.previous_ticks)
              × (out ≡ (
                  if checks
                  then panicked
                  else ok (some ((time + usize_mod - w.previous_ticks) % usize_mod))))))

  since_lem :
      (w : TaskWheel S R) (time : ℕ)
      → ((w.previous_ticks ≤ time)
          × (since slab states checks num_levels num_slots w (some time)
              ≡ ok (some (time - w.previous_ticks))))
        ⊎ ((time < w.previous_ticks)
            × (since slab states checks num_levels num_slots w (some time) ≡ (
                if checks
                then panicked
                else ok (some ((time + usize_mod - w.previous_ticks) % usize_mod)))))
  since_lem w time = elim (Bool-cases (leb w.previous_ticks time)) [
    | inl ahead ↦ inl (leb→le w.previous_ticks time ahead, rw ahead refl)
    | inr behind ↦ inr (leb_false→lt w.previous_ticks time behind, ground (arith, behind))
  ]

  given :
      (w : TaskWheel S R)
      → IsTimers slab states num_levels num_slots w
      → (r : Option ℕ) → IsEarliest slab checks num_levels num_slots w.wheel 0 r
      → IsNext w r (since slab states checks num_levels num_slots w r)
  given w inv none found = refl
  given w inv (some time) lowest =
      let least = lowest.is_first.least in
      (
        (
          least.context,
          least.index,
          inv.matched.owned least.index time least.context least.found,
          least.found,
        ),
        since_lem w time,
      )

  -- next_expiration on valid timers comes to an end, from some fuel on always with the same
  -- outcome, after the wheel has given the least time in the first slot that has timers, the
  -- lowest level first, or nothing where every slot is empty. The outcome is None just where the
  -- wheel gave nothing. A time is that of a running timer, and the outcome is the ticks from the
  -- last call of expire_timers to it; where the time is before that call, a debug build panics and
  -- a release build wraps. The slabs are as the crate slab documents them.
  pub next_expiration-IsTimers :
      (w : TaskWheel S R)
      → IsTimers slab states num_levels num_slots w
      → (enough : ℕ) × (r : Option ℕ) × (out : Outcome (Option ℕ)) × ((fuel : ℕ)
          → enough ≤ fuel
          → next_expiration slab states checks num_levels num_slots fuel w ≡ out)
        × IsEarliest slab checks num_levels num_slots w.wheel 0 r
        × IsNext w r out
  unfolding next_expiration
  next_expiration-IsTimers w inv =
      let (enough, r, runs, found, nowhere) =
        next_expiration_lem slab checks num_levels num_slots w.wheel inv.valid in
      (
        enough,
        r,
        since slab states checks num_levels num_slots w r,
        λ fuel h. rw (runs fuel h) refl,
        found,
        given w inv r found,
      )
