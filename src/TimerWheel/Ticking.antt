-- ===== src/TimerWheel/Ticking.antt =====
-- While time passes in a wheel, timers expire, none before its time, and no other timer is lost.
use vpp_plugin_rs.Prelude.{
  subst, inr, inl, Bool-cases, if◌then◌else◌, ℕ, zero, suc, ◌+◌, ◌≤◌, ◌<◌, ◌≡◌, refl, Bool, List,
  [], ◌++◌, length, ◌==◌, arith,
}
use vpp_plugin_rs.Outcome.Laws.{add_word-ok}
use vpp_plugin_rs.Outcome.{Outcome, ok, usize_mod}
use vpp_plugin_rs.TimerWheel.Timers.{process_list, process_level, tick, expire_timers}
use vpp_plugin_rs.TimerWheel.Slab.{Slab, IsSlab}
use vpp_plugin_rs.TimerWheel.Entries.{empty_index, TimerEntry}
use vpp_plugin_rs.TimerWheel.Wheel.{TimerWheel}
use vpp_plugin_rs.TimerWheel.Expiry.{IsWheel, Expires, Expires-none, Expires-append}
use vpp_plugin_rs.TimerWheel.Processing.{Processes, process_list_lem}
use vpp_plugin_rs.TimerWheel.Levels.{Detaches, detach_lem, Advances, advance_position_lem}

module _ {T S : Type 0} (slab : Slab (TimerEntry T) S) (law : IsSlab slab) (checks : Bool)
    (num_levels num_slots : ℕ) where
  -- From some fuel on the run ends, at the time `now`, in a valid wheel.
  pub record Elapses (now : ℕ) (w : TimerWheel S) (run : ℕ → Outcome (List T × TimerWheel S))
      : Type 0 where
    pub enough : ℕ
    pub expired : List T
    pub after : TimerWheel S
    pub runs : (fuel : ℕ) → enough ≤ fuel → run fuel ≡ ok (expired, after)
    pub valid : IsWheel slab num_levels num_slots after empty_index
    pub time : after.current_time ≡ now
    pub expires : Expires now (slab.get w.timers) (slab.get after.timers) expired

  still-Elapses :
      (w : TimerWheel S)
      → IsWheel slab num_levels num_slots w empty_index
      → Elapses w.current_time w (λ fuel. ok ([], w))
  still-Elapses w inv = record {
    enough = 0;
    expired = [];
    after = w;
    runs = λ fuel h. refl;
    valid = inv;
    time = refl;
    expires = Expires-none w.current_time (slab.get w.timers) (slab.get w.timers) (λ j. refl);
  }

  module _ (count level : ℕ) (w : TimerWheel S)
      (d : Detaches slab law checks num_levels num_slots w level)
      (p : Processes slab law checks num_levels num_slots
        (record w { timers = d.timers })
        empty_index
        (length d.list)
        (λ fuel.
          process_list slab checks num_levels num_slots fuel
            (record w { timers = d.timers })
            d.first))
      (a : Advances slab law checks num_levels num_slots (record w { timers = p.timers }) level)
      (c : Elapses w.current_time
        (record w { timers = p.timers; levels = a.levels })
        (λ fuel.
          if a.position == 0
          then process_level slab checks num_levels num_slots fuel count
              (record w { timers = p.timers; levels = a.levels })
              (level + 1)
          else ok ([], record w { timers = p.timers; levels = a.levels }))) where
    process_level-runs :
        (fuel : ℕ)
        → length d.list + c.enough ≤ fuel
        → process_level slab checks num_levels num_slots fuel (suc count) w level
          ≡ ok (p.expired ++ c.expired, c.after)
    unfolding process_level
    process_level-runs fuel h =
        rw (d.runs, p.runs fuel (omega arith), a.runs, c.runs fuel (omega arith)) refl

    process_level-suc :
        Elapses w.current_time w
          (λ fuel. process_level slab checks num_levels num_slots fuel (suc count) w level)
    process_level-suc = record {
      enough = length d.list + c.enough;
      expired = p.expired ++ c.expired;
      after = c.after;
      runs = process_level-runs;
      valid = c.valid;
      time = c.time;
      expires =
          Expires-append w.current_time w.current_time (slab.get w.timers) (slab.get p.timers)
            (slab.get c.after.timers) p.expired c.expired (omega arith)
            (Expires-append w.current_time w.current_time (slab.get w.timers) (slab.get d.timers)
              (slab.get p.timers) [] p.expired (omega arith)
              (Expires-none w.current_time (slab.get w.timers) (slab.get d.timers) d.same_data)
              p.expires)
            c.expires;
    }

  cascade-Elapses :
      (count level position : ℕ) (w : TimerWheel S)
      → IsWheel slab num_levels num_slots w empty_index
      → Elapses w.current_time w
          (λ fuel. process_level slab checks num_levels num_slots fuel count w (level + 1))
      → Elapses w.current_time w (λ fuel.
        if position == 0
        then process_level slab checks num_levels num_slots fuel count w (level + 1)
        else ok ([], w))
  cascade-Elapses count level position w inv c = elim (Bool-cases (position == 0)) [
    | inl wraps ↦ rw wraps c
    | inr goes_on ↦ rw goes_on (still-Elapses w inv)
  ]

  process_level_lem :
      (count level : ℕ) (w : TimerWheel S)
      → count + level ≡ num_levels
      → IsWheel slab num_levels num_slots w empty_index
      → Elapses w.current_time w
          (λ fuel. process_level slab checks num_levels num_slots fuel count w level)
  unfolding process_level
  process_level_lem zero level w e inv = still-Elapses w inv
  process_level_lem (suc count) level w e inv =
      let d = detach_lem slab law checks num_levels num_slots w level inv (omega arith) in
      let p =
        process_list_lem slab law checks num_levels num_slots (record w { timers = d.timers })
          d.first d.list d.valid d.chain in
      let a =
        advance_position_lem slab law checks num_levels num_slots (record w { timers = p.timers })
          level p.valid (omega arith) in
      let w' : TimerWheel S = record w { timers = p.timers; levels = a.levels } in
      process_level-suc count level w d p a (
        cascade-Elapses count level a.position w' a.valid
          (process_level_lem count (level + 1) w' (omega arith) a.valid))

  now-IsWheel :
      (w : TimerWheel S) (now : ℕ)
      → now < usize_mod
      → IsWheel slab num_levels num_slots w empty_index
      → IsWheel slab num_levels num_slots (record w { current_time = now }) empty_index
  now-IsWheel w now small inv = record {
    links = inv.links;
    shape = inv.shape;
    heads = inv.heads;
    clock = small;
    times = inv.times;
  }

  pub tick_lem :
      (w : TimerWheel S)
      → w.current_time + 1 < usize_mod
      → IsWheel slab num_levels num_slots w empty_index
      → Elapses (w.current_time + 1) w (λ fuel. tick slab checks num_levels num_slots fuel w)
  tick_lem w small inv =
      let r =
        process_level_lem num_levels 0 (record w { current_time = w.current_time + 1 })
          (omega arith) (now-IsWheel w (w.current_time + 1) small inv) in
      record {
        enough = r.enough;
        expired = r.expired;
        after = r.after;
        runs = λ fuel h.
            unfold tick in rw (add_word-ok checks usize_mod w.current_time 1 small) (r.runs fuel h);
        valid = r.valid;
        time = r.time;
        expires = r.expires;
      }

  expire_timers-suc :
      (ticks now : ℕ) (w : TimerWheel S)
      → (t : Elapses (w.current_time + 1) w (λ fuel. tick slab checks num_levels num_slots fuel w))
      → w.current_time + 1 ≤ now
      → Elapses now t.after
          (λ fuel. expire_timers slab checks num_levels num_slots fuel t.after ticks)
      → Elapses now w (λ fuel. expire_timers slab checks num_levels num_slots fuel w (suc ticks))
  expire_timers-suc ticks now w t le r = record {
    enough = t.enough + r.enough;
    expired = t.expired ++ r.expired;
    after = r.after;
    runs = λ fuel h.
        unfold expire_timers in rw (t.runs fuel (omega arith), r.runs fuel (omega arith)) refl;
    valid = r.valid;
    time = r.time;
    expires =
        Expires-append (w.current_time + 1) now (slab.get w.timers) (slab.get t.after.timers)
          (slab.get r.after.timers) t.expired r.expired le t.expires r.expires;
  }

  expire_timers-Elapses :
      (ticks now : ℕ) (w : TimerWheel S)
      → w.current_time + ticks ≡ now
      → now < usize_mod
      → IsWheel slab num_levels num_slots w empty_index
      → Elapses now w (λ fuel. expire_timers slab checks num_levels num_slots fuel w ticks)
  unfolding expire_timers
  expire_timers-Elapses zero now w e small inv =
      let at_now : w.current_time ≡ now = omega arith in
      subst (λ t. Elapses t w (λ fuel. expire_timers slab checks num_levels num_slots fuel w zero))
        at_now (still-Elapses w inv)
  expire_timers-Elapses (suc ticks) now w e small inv =
      let t = tick_lem w (omega arith) inv in
      expire_timers-suc ticks now w t (omega arith)
        (expire_timers-Elapses ticks now t.after (omega (arith, t.time, e)) small t.valid)

  -- expire_timers, run on a valid wheel, comes to an end, from some fuel on always with the same
  -- result: a valid wheel at the later time. Every timer is still there as it was or is gone, its
  -- time passed and its context among those returned, and every context returned is that of such a
  -- timer: none fires before its time and none is lost. The clock must not pass 2^64, and the slab
  -- is as the crate slab documents it.
  pub expire_timers_lem :
      (w : TimerWheel S) (ticks : ℕ)
      → IsWheel slab num_levels num_slots w empty_index
      → w.current_time + ticks < usize_mod
      → (enough : ℕ) × (expired : List T) × (w' : TimerWheel S) × ((fuel : ℕ)
          → enough ≤ fuel
          → expire_timers slab checks num_levels num_slots fuel w ticks ≡ ok (expired, w'))
        × IsWheel slab num_levels num_slots w' empty_index
        × (w'.current_time ≡ w.current_time + ticks)
        × Expires (w.current_time + ticks) (slab.get w.timers) (slab.get w'.timers) expired
  expire_timers_lem w ticks inv small =
      let r = expire_timers-Elapses ticks (w.current_time + ticks) w refl small inv in
      (r.enough, r.expired, r.after, r.runs, r.valid, r.time, r.expires)
