-- ===== src/TimerWheel/Least.antt =====
-- What the loop of `next_expiration` over one list finds: the least time of its timers.
use vpp_plugin_rs.TimerWheel.Search.{min_time, least_time}
use vpp_plugin_rs.Prelude.{
  ap, subst, ◌∙◌, min-cases, sym, ne→==_false, ℕ, zero, suc, min, ◌≤◌, ◌≡◌, ◌≢◌, ◌⊎◌, inl, inr,
  refl, Bool, true, List, [], ◌∷◌, Option, none, some, length, arith,
}
use vpp_plugin_rs.TimerWheel.Store.{timer-there}
use vpp_plugin_rs.TimerWheel.Processing.{timer-data}
use vpp_plugin_rs.Outcome.{ok}
use vpp_plugin_rs.TimerWheel.Slab.{Slab}
use vpp_plugin_rs.TimerWheel.Entries.{empty_index, timer, TimerEntry}
use vpp_plugin_rs.TimerWheel.Wheel.{TimerWheel}
use vpp_plugin_rs.TimerWheel.Links.{next_of, data_of, is_timer, Chain}
use vpp_plugin_rs.TimerWheel.Expiry.{IsWheel, Among}

le_some : (a b c : ℕ) → a ≤ b → some b ≡ some c → a ≤ c
le_some a b c h e = let same : b ≡ c = cc (e) in omega (arith, same, h)

-- The new least time is not after the old one nor after the time seen, and is one of them.
min_time_lem :
    (least : Option ℕ) (time : ℕ)
    → (m : ℕ) × (min_time least time ≡ some m)
      × (m ≤ time)
      × ((l : ℕ) → least ≡ some l → m ≤ l)
      × ((least ≡ some m) ⊎ (m ≡ time))
min_time_lem none time = (time, refl, omega arith, λ l e. absurd (cc), inr refl)
min_time_lem (some least) time = elim (min-cases least time) [
  | inl e ↦ (
    min least time,
    refl,
    omega arith,
    λ l e'. le_some _ least l (omega arith) e',
    inl (ap some (sym e)),
  )
  | inr e ↦ (min least time, refl, omega arith, λ l e'. le_some _ least l (omega arith) e', inr e)
]

module _ {T S : Type 0} (slab : Slab (TimerEntry T) S) (num_levels num_slots : ℕ)
    (w : TimerWheel S) where
  -- The time is that of a timer of the list, and no timer of the list has a time before it.
  pub record IsLeast (ts : List ℕ) (least : ℕ) : Type 0 where
    pub index : ℕ
    pub context : T
    pub among : Among index ts
    pub found : data_of (slab.get w.timers index) ≡ some (timer least context)
    pub least_of :
        (j time : ℕ) (c : T)
        → Among j ts
        → data_of (slab.get w.timers j) ≡ some (timer time c)
        → least ≤ time

  -- The same of a search that has come to a least time before the list.
  abbrev IsMin : Option ℕ → List ℕ → Option ℕ → Type 0
  IsMin least ts none = (least ≡ none) × (ts ≡ [])
  IsMin least ts (some t) =
      ((j time : ℕ) (c : T)
        → Among j ts
        → data_of (slab.get w.timers j) ≡ some (timer time c)
        → t ≤ time)
      × ((l : ℕ) → least ≡ some l → t ≤ l)
      × ((least ≡ some t) ⊎ IsLeast ts t)

  IsMin-end : (least : Option ℕ) → IsMin least [] least
  IsMin-end none = (refl, refl)
  IsMin-end (some t) = (λ j time c m. absurd m, λ l e. le_some t t l (omega arith) e, inl refl)

  IsMin-step :
      (least r : Option ℕ) (time j : ℕ) (c : T) (ts : List ℕ)
      → data_of (slab.get w.timers j) ≡ some (timer time c)
      → IsMin (min_time least time) ts r
      → IsMin least (j ∷ ts) r
  IsMin-step least none time j c ts at (none_left, none_there) =
      let (m, is_m, m_le, m_least, one) = min_time_lem least time in absurd (cc)
  IsMin-step least (some t) time j c ts at (all, below, from) =
      let (m, is_m, m_le, m_least, one) = min_time_lem least time in
      let t_le : t ≤ m = below m is_m in
      let all' : (i time' : ℕ) (c' : T)
          → Among i (j ∷ ts)
          → data_of (slab.get w.timers i) ≡ some (timer time' c')
          → t ≤ time' =
        λ i time' c' here there. elim here [
          | inl same ↦
              let same_time : time ≡ time' = cc (same, at, there) in omega (arith, m_le, t_le)
          | inr later ↦ all i time' c' later there
        ] in
      (
        all',
        λ l e. omega (arith, m_least l e, t_le),
        elim from [
          | inl e ↦ elim one [
            | inl before ↦ inl (before ∙ sym is_m ∙ e)
            | inr now ↦ inr (record {
              index = j;
              context = c;
              among = inl refl;
              found = subst (λ x. data_of (slab.get w.timers j) ≡ some (timer x c)) (cc) at;
              least_of = all';
            })
          ]
          | inr h ↦ inr (record {
            index = h.index;
            context = h.context;
            among = inr h.among;
            found = h.found;
            least_of = all';
          })
        ],
      )

module _ {T S : Type 0} (slab : Slab (TimerEntry T) S) (checks : Bool) (num_levels num_slots : ℕ)
    (w : TimerWheel S) where
  least_time-end :
      (fuel index : ℕ) (least : Option ℕ)
      → index ≡ empty_index
      → least_time slab checks num_levels num_slots fuel w.timers index least ≡ ok least
  unfolding least_time
  least_time-end zero index least e = rw e refl
  least_time-end (suc fuel) index least e = rw e refl

  least_time-step :
      (fuel index time enough : ℕ) (least r : Option ℕ) (c : T) (e : TimerEntry T)
      → index ≢ empty_index
      → slab.get w.timers index ≡ some e
      → e.entry_data ≡ timer time c
      → ((fuel : ℕ)
          → enough ≤ fuel
          → least_time slab checks num_levels num_slots fuel w.timers e.next (min_time least time)
            ≡ ok r)
      → suc enough ≤ fuel
      → least_time slab checks num_levels num_slots fuel w.timers index least ≡ ok r
  unfolding least_time
  least_time-step zero index time enough least r c e used at a_timer rest h = absurd (omega arith)
  least_time-step (suc fuel) index time enough least r c e used at a_timer rest h =
      rw (ne→==_false index empty_index used, at, a_timer, rest fuel (omega arith)) refl

  module _ (inv : IsWheel slab num_levels num_slots w empty_index) where
    list_lem :
        (ts : List ℕ) (index : ℕ) (least : Option ℕ)
        → Chain (slab.get w.timers) index ts
        → (index ≢ empty_index → is_timer (slab.get w.timers index) ≡ true)
        → (r : Option ℕ) × ((fuel : ℕ)
            → length ts ≤ fuel
            → least_time slab checks num_levels num_slots fuel w.timers index least ≡ ok r)
          × IsMin slab num_levels num_slots w least ts r
    list_lem [] index least at_end timers = (
      least,
      λ fuel h. least_time-end fuel index least at_end,
      IsMin-end slab num_levels num_slots w least,
    )
    list_lem (t ∷ ts) index least (same, ne, (n, at_next, rest)) timers =
        let used : index ≢ empty_index = λ e. ne (sym same ∙ e) in
        let (e, at) = timer-there (slab.get w.timers index) (timers used) in
        let (time, c, a_timer) = timer-data e (ap is_timer (sym at) ∙ timers used) in
        let step : next_of (slab.get w.timers index) ≡ some e.next = ap next_of at in
        let behind : Chain (slab.get w.timers) e.next ts =
          subst (λ m. Chain (slab.get w.timers) m ts) (ground (arith, same, at, at_next)) rest in
        let there : data_of (slab.get w.timers index) ≡ some (timer time c) =
          ap data_of at ∙ ap some a_timer in
        let (r, runs, is_min) =
          list_lem ts e.next (min_time least time) behind
            (λ used'. inv.links.headless index e.next step used') in
        (
          r,
          λ fuel h. least_time-step fuel index time (length ts) least r c e used at a_timer runs h,
          IsMin-step slab num_levels num_slots w least r time t c ts
              (subst (λ k. data_of (slab.get w.timers k) ≡ some (timer time c)) same there) is_min,
        )

    -- On a list that is not empty the loop comes to the least of its times.
    pub least_time_lem :
        (index : ℕ) (ts : List ℕ)
        → Chain (slab.get w.timers) index ts
        → index ≢ empty_index
        → (index ≢ empty_index → is_timer (slab.get w.timers index) ≡ true)
        → (t : ℕ) × ((fuel : ℕ)
            → length ts ≤ fuel
            → least_time slab checks num_levels num_slots fuel w.timers index none ≡ ok (some t))
          × IsLeast slab num_levels num_slots w ts t
    least_time_lem index ts chain used timers =
        let (r, runs, is_min) = list_lem ts index none chain timers in by_result r runs is_min
      where
        by_result :
            (r : Option ℕ)
            → ((fuel : ℕ)
                → length ts ≤ fuel
                → least_time slab checks num_levels num_slots fuel w.timers index none ≡ ok r)
            → IsMin slab num_levels num_slots w none ts r
            → (t : ℕ) × ((fuel : ℕ)
                → length ts ≤ fuel
                → least_time slab checks num_levels num_slots fuel w.timers index none
                  ≡ ok (some t))
              × IsLeast slab num_levels num_slots w ts t
        by_result none runs (refl', no_timers) =
            absurd (used (subst (λ ts. Chain (slab.get w.timers) index ts) no_timers chain))
        by_result (some t) runs (all, below, from) = elim from [
          | inl e ↦ absurd (cc)
          | inr h ↦ (t, runs, h)
        ]
