-- ===== src/TaskTimers/Changes.antt =====
-- States and wheels of process_node/tw_timer.rs that match, with one timer more or less.
use vpp_plugin_rs.Prelude.{
  Bool-cases, ℕ, ◌≡◌, ◌∙◌, false, Option, none, some, ◌⊎◌, inl, inr, if◌then◌else◌, ◌==◌, arith,
}
use vpp_plugin_rs.TaskTimers.{TimerState, running, expired}
use vpp_plugin_rs.TimerWheel.Entries.{timer}
use vpp_plugin_rs.TimerWheel.Links.{Entries, data_of}
use vpp_plugin_rs.TaskTimers.Valid.{IsMatched, IsRunning}

some-expired : (e : TimerState) → some e ≡ some expired → e ≡ expired
some-expired e at = cc

some-running : (e : TimerState) (j : ℕ) → some e ≡ some (running j) → e ≡ running j
some-running e j at = cc

-- The states and the wheel with one timer more, which is ready at once.
pub late-IsMatched :
    (before after : ℕ → Option TimerState) (g : Entries ℕ) (h : ℕ)
    → before h ≡ none
    → ((j : ℕ) → after j ≡ (if h == j then some expired else before j))
    → IsMatched before g
    → IsMatched after g
late-IsMatched before after g h vacant view m = record {
  each = λ j e at. elim (Bool-cases (h == j)) [
    | inl same ↦ inl (some-expired e (let v = view j in ground (arith, v, same, at)))
    | inr other ↦ m.each j e (let v = view j in ground (arith, v, other, at))
  ];
  owned = λ j time c at.
      let mine = m.owned j time c at in let v = view c in ground (arith, mine, v, vacant);
}

stays-IsRunning :
    (g g' : Entries ℕ) (h : ℕ) (e : TimerState)
    → ((j : ℕ) (time : ℕ) → data_of (g j) ≡ some (timer time h) → data_of (g' j) ≡ data_of (g j))
    → (e ≡ expired) ⊎ IsRunning g h e
    → (e ≡ expired) ⊎ IsRunning g' h e
stays-IsRunning g g' h e same (inl done) = inl done
stays-IsRunning g g' h e same (inr r) = inr (record {
  handle = r.handle;
  time = r.time;
  is = r.is;
  there = same r.handle r.time r.there ∙ r.there;
})

-- The same with one that runs under the handle `key`.
pub running-IsMatched :
    (before after : ℕ → Option TimerState) (g g' : Entries ℕ) (h key time : ℕ)
    → before h ≡ none
    → g key ≡ none
    → ((j : ℕ) → after j ≡ (if h == j then some (running key) else before j))
    → ((j : ℕ) → data_of (g' j) ≡ (if key == j then some (timer time h) else data_of (g j)))
    → IsMatched before g
    → IsMatched after g'
running-IsMatched before after g g' h key time vacant free view view_data m = record {
  each = λ j e at. elim (Bool-cases (h == j)) [
    | inl same ↦ inr (record {
      handle = key;
      time = time;
      is = some-running e key (let v = view j in ground (arith, v, same, at));
      there = let d = view_data key in ground (arith, d, same);
    })
    | inr other ↦
        stays-IsRunning g g' j e (λ i t was. let d = view_data i in ground (arith, d, was, free))
          (m.each j e (let v = view j in ground (arith, v, other, at)))
  ];
  owned = λ j t c at. elim (Bool-cases (key == j)) [
    | inl same ↦ let d = view_data j in let v = view c in ground (arith, d, v, at, same)
    | inr other ↦
        let d = view_data j in
        let mine = m.owned j t c (ground (arith, d, at, other)) in
        let v = view c in ground (arith, mine, v, vacant)
  ];
}

-- The states and the wheel without the timer `h`.
pub stopped-IsMatched :
    (before after : ℕ → Option TimerState) (g g' : Entries ℕ) (h : ℕ)
    → ((j : ℕ) → after j ≡ (if h == j then none else before j))
    → ((i t j : ℕ)
        → data_of (g i) ≡ some (timer t j)
        → (h == j) ≡ false
        → data_of (g' i) ≡ data_of (g i))
    → ((i t c : ℕ)
        → data_of (g' i) ≡ some (timer t c)
        → (data_of (g i) ≡ some (timer t c)) × ((h == c) ≡ false))
    → IsMatched before g
    → IsMatched after g'
stopped-IsMatched before after g g' h view same less m = record {
  each = λ j e at. elim (Bool-cases (h == j)) [
    | inl it ↦ let v = view j in absurd (ground (arith, v, it, at))
    | inr other ↦
        stays-IsRunning g g' j e (λ i t was. same i t j was other)
          (m.each j e (let v = view j in ground (arith, v, other, at)))
  ];
  owned = λ j t c at.
      let (was, other) = less j t c at in
      let mine = m.owned j t c was in let v = view c in ground (arith, mine, v, other);
}
