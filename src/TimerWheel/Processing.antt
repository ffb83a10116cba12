-- ===== src/TimerWheel/Processing.antt =====
-- The loop over the list of a slot comes to an end, and takes out the timers whose time has passed.
use vpp_plugin_rs.Prelude.{
  leb_false→lt, ne→==_false, leb→le, ap, ◌∙◌, le→leb, inr, fun_ext, sym, inl, Bool-cases,
  lt→leb_false, subst, ℕ, zero, suc, ◌≤◌, ◌<◌, ◌≡◌, ◌≢◌, refl, Bool, true, List, [], ◌∷◌, ◌++◌,
  some, leb, ◌==◌, length, arith,
}
use vpp_plugin_rs.TimerWheel.Store.{timer-there}
use vpp_plugin_rs.TimerWheel.Frames.{removed-rest, removed, removed-IsLinked}
use vpp_plugin_rs.Outcome.{Outcome, ok}
use vpp_plugin_rs.TimerWheel.Slab.{Slab, IsSlab}
use vpp_plugin_rs.TimerWheel.Entries.{empty_index, TimerEntryData, head, timer, TimerEntry}
use vpp_plugin_rs.TimerWheel.Wheel.{TimerWheel}
use vpp_plugin_rs.TimerWheel.Links.{Entries, data_of, is_timer, Chain, IsLinked}
use vpp_plugin_rs.TimerWheel.Timers.{process_timer, process_list}
use vpp_plugin_rs.TimerWheel.Expiry.{IsWheel, Expires, Expires-none, Expires-append}
use vpp_plugin_rs.TimerWheel.Starting.{start_timer_unchecked_lem, expired-IsWheel}

pub timer-data :
    {T : Type 0} (e : TimerEntry T)
    → is_timer (some e) ≡ true
    → (time : ℕ) × (c : T) × (e.entry_data ≡ timer time c)
timer-data {T} e h = by_kind e.entry_data refl h
  where
    by_kind :
        (d : TimerEntryData T)
        → e.entry_data ≡ d
        → is_timer (some e) ≡ true
        → (time : ℕ) × (c : T) × (e.entry_data ≡ timer time c)
    by_kind head same h = absurd (ground (arith, same, h))
    by_kind (timer time c) same h = (time, c, same)

Chain-empty :
    {T : Type 0} (g g' : Entries T) (ts : List ℕ) → Chain g empty_index ts → Chain g' empty_index ts
Chain-empty g g' [] r = refl
Chain-empty g g' (t ∷ ts) (same, ne, r) = absurd (ne (sym same))

module _ {T S : Type 0} (slab : Slab (TimerEntry T) S) (law : IsSlab slab) (checks : Bool)
    (num_levels num_slots : ℕ) where
  -- A run that expires timers and leaves a wheel with `next` pending, from the fuel `enough` on.
  pub record Processes (w : TimerWheel S) (next enough : ℕ)
      (run : ℕ → Outcome (List T × TimerWheel S)) : Type 0 where
    pub expired : List T
    pub timers : S
    pub runs : (fuel : ℕ) → enough ≤ fuel → run fuel ≡ ok (expired, record w { timers = timers })
    pub valid : IsWheel slab num_levels num_slots (record w { timers = timers }) next
    pub expires : Expires w.current_time (slab.get w.timers) (slab.get timers) expired
    pub behind : (ts : List ℕ) → Chain (slab.get w.timers) next ts → Chain (slab.get timers) next ts

  module _ (w : TimerWheel S) (index time : ℕ) (c : T) (e : TimerEntry T)
      (inv : IsWheel slab num_levels num_slots w index) (used : index ≢ empty_index)
      (at : slab.get w.timers index ≡ some e) (a_timer : e.entry_data ≡ timer time c) where
    due_Expires :
        time ≤ w.current_time
        → Expires w.current_time (slab.get w.timers) (removed (slab.get w.timers) index e) (c ∷ [])
    due_Expires le = record {
      each = λ j. elim (Bool-cases (index == j)) [
        | inl same ↦ inr (record {
          time = time;
          context = c;
          was = ground (arith, at, a_timer, same);
          due = le;
          gone = ground (arith, same);
          returned = inl refl;
        })
        | inr other ↦ inl (ground (arith, other))
      ];
      only = λ c' m. elim m [
        | inl same ↦ (
          index,
          time,
          ap data_of at ∙ ap some (a_timer ∙ ap (timer time) (sym same)),
          le,
          ground (arith),
        )
        | inr no_more ↦ absurd no_more
      ];
    }

    due-Processes :
        time ≤ w.current_time
        → Processes w e.next 0
            (λ fuel. process_timer slab checks num_levels num_slots w index e.entry_data)
    due-Processes le =
        let view : (j : ℕ)
            → slab.get (slab.remove w.timers index) j ≡ removed (slab.get w.timers) index e j =
          λ j. law.get_remove w.timers index e j at in
        let gone : Expires w.current_time (slab.get w.timers)
            (slab.get (slab.remove w.timers index)) (c ∷ []) =
          subst (λ g. Expires w.current_time (slab.get w.timers) g (c ∷ [])) (sym (fun_ext view))
            (due_Expires le) in
        record {
          expired = c ∷ [];
          timers = slab.remove w.timers index;
          runs = λ fuel h. rw (a_timer, le→leb time w.current_time le, at, a_timer) refl;
          valid =
              expired-IsWheel slab law checks num_levels num_slots w (slab.remove w.timers index)
                index e.next (c ∷ []) inv
                (subst (λ g. IsLinked g e.next) (sym (fun_ext view))
                  (removed-IsLinked (slab.get w.timers) index e inv.links at used))
                gone;
          expires = gone;
          behind = λ ts r.
              subst (λ g. Chain g e.next ts) (sym (fun_ext view))
                (removed-rest (slab.get w.timers) index e inv.links at used ts r);
        }

    later-Processes :
        w.current_time < time
        → Processes w e.next 0
            (λ fuel. process_timer slab checks num_levels num_slots w index e.entry_data)
    later-Processes lt =
        let s =
          start_timer_unchecked_lem slab law checks num_levels num_slots w index time c e inv used
            at a_timer (omega arith) in
        record {
          expired = [];
          timers = s.timers;
          runs = λ fuel h. rw (a_timer, lt→leb_false time w.current_time lt, s.runs) refl;
          valid = s.valid;
          expires = Expires-none w.current_time (slab.get w.timers) (slab.get s.timers) s.same_data;
          behind = s.behind;
        }

    pub process_timer_lem :
        Processes w e.next 0
          (λ fuel. process_timer slab checks num_levels num_slots w index e.entry_data)
    process_timer_lem = elim (Bool-cases (leb time w.current_time)) [
      | inl due ↦ due-Processes (leb→le time w.current_time due)
      | inr later ↦ later-Processes (leb_false→lt time w.current_time later)
    ]

  process_list-end :
      (fuel : ℕ) (w : TimerWheel S) (index : ℕ)
      → index ≡ empty_index
      → process_list slab checks num_levels num_slots fuel w index ≡ ok ([], w)
  unfolding process_list
  process_list-end zero w index e = rw e refl
  process_list-end (suc fuel) w index e = rw e refl

  module _ (w : TimerWheel S) (index enough : ℕ) (e : TimerEntry T) (used : index ≢ empty_index)
      (at : slab.get w.timers index ≡ some e)
      (p : Processes w e.next 0
        (λ fuel. process_timer slab checks num_levels num_slots w index e.entry_data))
      (q : Processes
        (record w { timers = p.timers })
        empty_index
        enough
        (λ fuel.
          process_list slab checks num_levels num_slots fuel
            (record w { timers = p.timers })
            e.next)) where
    process_list-runs :
        (fuel : ℕ)
        → suc enough ≤ fuel
        → process_list slab checks num_levels num_slots fuel w index
          ≡ ok (p.expired ++ q.expired, record w { timers = q.timers })
    unfolding process_list
    process_list-runs zero h = absurd (omega arith)
    process_list-runs (suc fuel) h =
        rw
          (
            ne→==_false index empty_index used,
            at,
            p.runs fuel (omega arith),
            q.runs fuel (omega arith),
          )
          refl

    process_list-cons :
        Processes w empty_index
          (suc enough)
          (λ fuel. process_list slab checks num_levels num_slots fuel w index)
    process_list-cons = record {
      expired = p.expired ++ q.expired;
      timers = q.timers;
      runs = process_list-runs;
      valid = q.valid;
      expires =
          Expires-append w.current_time w.current_time (slab.get w.timers) (slab.get p.timers)
            (slab.get q.timers) p.expired q.expired (omega arith) p.expires q.expires;
      behind = Chain-empty (slab.get w.timers) (slab.get q.timers);
    }

  pub process_list_lem :
      (w : TimerWheel S) (index : ℕ) (ts : List ℕ)
      → IsWheel slab num_levels num_slots w index
      → Chain (slab.get w.timers) index ts
      → Processes w empty_index
          (length ts)
          (λ fuel. process_list slab checks num_levels num_slots fuel w index)
  process_list_lem w index [] inv r = record {
    expired = [];
    timers = w.timers;
    runs = λ fuel h. process_list-end fuel w index r;
    valid = subst (IsWheel slab num_levels num_slots w) r inv;
    expires = Expires-none w.current_time (slab.get w.timers) (slab.get w.timers) (λ j. refl);
    behind = λ ts c. c;
  }
  process_list_lem w index (t ∷ ts) inv (same, ne, (n, at_next, r)) =
      let used : index ≢ empty_index = λ e. ne (sym same ∙ e) in
      let (e, at) = timer-there (slab.get w.timers index) (inv.links.waiting used) in
      let (time, c, a_timer) = timer-data e (ap is_timer (sym at) ∙ inv.links.waiting used) in
      let p = process_timer_lem w index time c e inv used at a_timer in
      let behind : Chain (slab.get w.timers) e.next ts =
        subst (λ m. Chain (slab.get w.timers) m ts) (ground (arith, same, at, at_next)) r in
      process_list-cons w index (length ts) e used at p
        (process_list_lem (record w { timers = p.timers }) e.next ts p.valid (p.behind ts behind))
