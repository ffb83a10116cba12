-- ===== src/TimerWheel/Store.antt =====
-- What the code that sets the links makes of the entries in the slab.
use vpp_plugin_rs.TimerWheel.Entries.{
  set_links, empty_index, TimerEntryData, TimerEntry, set_next, set_previous, set_previous_of, link,
  unlink,
}
use vpp_plugin_rs.Prelude.{
  ◌∙◌, ap, ==_false→ne, inr, inl, Bool-cases, ℕ, ◌≡◌, ◌≢◌, refl, true, false, Option, none, some,
  if◌then◌else◌, ◌==◌, arith,
}
use vpp_plugin_rs.Outcome.{ok}
use vpp_plugin_rs.TimerWheel.Slab.{Slab, IsSlab}
use vpp_plugin_rs.TimerWheel.Links.{
  next_of, previous_of, data_of, is_timer, IsLinked, linked, relinked,
}
use vpp_plugin_rs.TimerWheel.Unlinks.{unlinked}

pub timer-there :
    {T : Type 0} (o : Option (TimerEntry T)) → is_timer o ≡ true → (e : TimerEntry T) × (o ≡ some e)
timer-there none h = absurd (cc)
timer-there (some e) h = (e, refl)

pub next-there :
    {T : Type 0} (o : Option (TimerEntry T)) (n : ℕ)
    → next_of o ≡ some n
    → (e : TimerEntry T) × (o ≡ some e) × (e.next ≡ n)
next-there none n h = absurd (cc)
next-there (some e) n h = (e, refl, ground (arith, h))

pub data-there :
    {T : Type 0} (o : Option (TimerEntry T)) (d : TimerEntryData T)
    → data_of o ≡ some d
    → (e : TimerEntry T) × (o ≡ some e) × (e.entry_data ≡ d)
data-there none d h = absurd (cc)
data-there (some e) d h = (e, refl, ground (arith, h))

module _ {T S : Type 0} (slab : Slab (TimerEntry T) S) (law : IsSlab slab) where
  pub set_next-view :
      (s : S) (i n : ℕ) (e : TimerEntry T)
      → slab.get s i ≡ some e
      → (s' : S) × (set_next slab s i n ≡ ok s')
        × ((j : ℕ)
            → slab.get s' j ≡ (if i == j then some (record e { next = n }) else slab.get s j))
  unfolding set_next
  set_next-view s i n e at = (
    slab.put s i (record e { next = n }),
    rw at refl,
    λ j. law.get_put s i e (record e { next = n }) j at,
  )

  set_previous-view :
      (s : S) (i n : ℕ) (e : TimerEntry T)
      → slab.get s i ≡ some e
      → (s' : S) × (set_previous slab s i n ≡ ok s')
        × ((j : ℕ)
            → slab.get s' j ≡ (if i == j then some (record e { previous = n }) else slab.get s j))
  unfolding set_previous
  set_previous-view s i n e at = (
    slab.put s i (record e { previous = n }),
    rw at refl,
    λ j. law.get_put s i e (record e { previous = n }) j at,
  )

  -- The successor, where there is one, gets its new predecessor.
  set_previous_of-view :
      (s : S) (i n : ℕ)
      → slab.get s empty_index ≡ none
      → (i ≢ empty_index → is_timer (slab.get s i) ≡ true)
      → (s' : S) × (set_previous_of slab s i n ≡ ok s')
        × ((j : ℕ) → slab.get s' j ≡ (if i == j then relinked n (slab.get s j) else slab.get s j))
  set_previous_of-view s i n unused there = elim (Bool-cases (i == empty_index)) [
    | inl e ↦ (s, rw e refl, λ j. ground (arith, e, unused))
    | inr e ↦
        let (old, at) = timer-there (slab.get s i) (there (==_false→ne i empty_index e)) in
        let (s', p, v) = set_previous-view s i n old at in
        (s', rw e p, λ j. let vj = v j in ground (arith, vj, at))
  ]

  set_links-view :
      (s : S) (i n p : ℕ) (e : TimerEntry T)
      → slab.get s i ≡ some e
      → (s' : S) × (set_links slab s i n p ≡ ok s')
        × ((j : ℕ)
            → slab.get s' j
              ≡ (if i == j then some (record e { next = n; previous = p }) else slab.get s j))
  unfolding set_links
  set_links-view s i n p e at =
      let (s₁, p₁, v₁) = set_next-view s i n e at in set_links_from s₁ p₁ v₁
    where
      set_links_from :
          (s₁ : S)
          → set_next slab s i n ≡ ok s₁
          → ((j : ℕ)
              → slab.get s₁ j ≡ (if i == j then some (record e { next = n }) else slab.get s j))
          → (s' : S) × (set_links slab s i n p ≡ ok s')
            × ((j : ℕ)
                → slab.get s' j
                  ≡ (if i == j then some (record e { next = n; previous = p }) else slab.get s j))
      set_links_from s₁ p₁ v₁ =
          let v₁i = v₁ i in
          let (s₂, p₂, v₂) =
            set_previous-view s₁ i p (record e { next = n }) (ground (arith, v₁i)) in
          (s₂, rw p₁ p₂, λ j. let v₁j = v₁ j in let v₂j = v₂ j in ground (arith, v₁j, v₂j))

  module _ (s : S) (h i : ℕ) (eh ei : TimerEntry T) where
    pub link_run :
        (s₁ s₂ s₃ : S)
        → slab.get s h ≡ some eh
        → set_next slab s h i ≡ ok s₁
        → set_links slab s₁ i eh.next h ≡ ok s₂
        → set_previous_of slab s₂ eh.next i ≡ ok s₃
        → link slab s h i ≡ ok s₃
    unfolding link
    link_run s₁ s₂ s₃ at p₁ p₂ p₃ = rw (at, p₁, p₂) p₃

    module _ (c : IsLinked (slab.get s) i) (at_head : slab.get s h ≡ some eh)
        (at_pending : slab.get s i ≡ some ei) (a_head : is_timer (slab.get s h) ≡ false)
        (used : i ≢ empty_index) where
      link-third :
          (s₁ s₂ : S)
          → set_next slab s h i ≡ ok s₁
          → set_links slab s₁ i eh.next h ≡ ok s₂
          → ((j : ℕ)
              → slab.get s₁ j ≡ (if h == j then some (record eh { next = i }) else slab.get s j))
          → ((j : ℕ)
              → slab.get s₂ j ≡ (
                  if i == j
                  then some (record ei { next = eh.next; previous = h })
                  else slab.get s₁ j))
          → (s' : S) × (link slab s h i ≡ ok s')
            × ((j : ℕ) → slab.get s' j ≡ linked (slab.get s) h i eh ei j)
      link-third s₁ s₂ p₁ p₂ v₁ v₂ =
          let w = c.waiting used in
          let unused = c.unused in
          let u = c.unreferenced h in
          let hh = c.headless h eh.next in
          let v₂e = v₂ empty_index in
          let v₁e = v₁ empty_index in
          let v₂n = v₂ eh.next in
          let v₁n = v₁ eh.next in
          let (s₃, p₃, v₃) =
            set_previous_of-view s₂ eh.next i (ground (arith, v₂e, v₁e, unused, used, at_head))
              (λ ne. ground (arith, ne, v₂n, v₁n, w, hh, u, at_head, at_pending)) in
          (
            s₃,
            link_run s₁ s₂ s₃ at_head p₁ p₂ p₃,
            λ j.
                let v₃j = v₃ j in
                let v₂j = v₂ j in
                let v₁j = v₁ j in
                ground (arith, v₃j, v₂j, v₁j, u, at_head, at_pending, w, a_head, hh, unused),
          )

      link-second :
          (s₁ : S)
          → set_next slab s h i ≡ ok s₁
          → ((j : ℕ)
              → slab.get s₁ j ≡ (if h == j then some (record eh { next = i }) else slab.get s j))
          → (s' : S) × (link slab s h i ≡ ok s')
            × ((j : ℕ) → slab.get s' j ≡ linked (slab.get s) h i eh ei j)
      link-second s₁ p₁ v₁ =
          let v₁i = v₁ i in
          let w = c.waiting used in
          let (s₂, p₂, v₂) =
            set_links-view s₁ i eh.next h ei (ground (arith, v₁i, at_pending, w, a_head)) in
          link-third s₁ s₂ p₁ p₂ v₁ v₂

      pub link-view :
          (s' : S) × (link slab s h i ≡ ok s')
          × ((j : ℕ) → slab.get s' j ≡ linked (slab.get s) h i eh ei j)
      link-view = let (s₁, p₁, v₁) = set_next-view s h i eh at_head in link-second s₁ p₁ v₁

  module _ (s : S) (t : ℕ) (e : TimerEntry T) (c : IsLinked (slab.get s) empty_index)
      (at : slab.get s t ≡ some e) (a_timer : is_timer (slab.get s t) ≡ true) where
    -- The timer is taken out of its list and of the slab.
    abbrev pub Unlinks : Type 0
    Unlinks =
        (s' : S) × (unlink slab s e ≡ ok s')
        × (data_of (slab.get s' t) ≡ some e.entry_data)
        × ((j : ℕ) → slab.get (slab.remove s' t) j ≡ unlinked (slab.get s) t e j)

    unlink-third :
        (s₁ s₂ : S) (ep et : TimerEntry T)
        → slab.get s e.previous ≡ some ep
        → set_next slab s e.previous e.next ≡ ok s₁
        → set_previous_of slab s₁ e.next e.previous ≡ ok s₂
        → ((j : ℕ)
            → slab.get s₁ j
              ≡ (if e.previous == j then some (record ep { next = e.next }) else slab.get s j))
        → ((j : ℕ)
            → slab.get s₂ j
              ≡ (if e.next == j then relinked e.previous (slab.get s₁ j) else slab.get s₁ j))
        → slab.get s₂ t ≡ some et
        → et.entry_data ≡ e.entry_data
        → Unlinks
    unfolding unlink
    unlink-third s₁ s₂ ep et at_previous p₁ p₂ v₁ v₂ at₂ same_data = (
      s₂,
      rw p₁ p₂,
      ap data_of at₂ ∙ ap some same_data,
      λ j.
          let v₂j = v₂ j in
          let v₁j = v₁ j in
          let r = law.get_remove s₂ t et j at₂ in ground (arith, v₂j, v₁j, r, at_previous),
    )

    unlink-second :
        (s₁ : S) (ep : TimerEntry T)
        → slab.get s e.previous ≡ some ep
        → set_next slab s e.previous e.next ≡ ok s₁
        → ((j : ℕ)
            → slab.get s₁ j
              ≡ (if e.previous == j then some (record ep { next = e.next }) else slab.get s j))
        → Unlinks
    unlink-second s₁ ep at_previous p₁ v₁ =
        let unused = c.unused in
        let hn = c.headless t e.next in
        let v₁e = v₁ empty_index in
        let v₁n = v₁ e.next in
        let v₁t = v₁ t in
        let (s₂, p₂, v₂) =
          set_previous_of-view s₁ e.next e.previous (ground (arith, v₁e, unused, at_previous))
            (λ ne. ground (arith, ne, v₁n, hn, at, at_previous)) in
        let v₂t = v₂ t in
        let (et, at₂, same_data) =
          data-there (slab.get s₂ t) e.entry_data (ground (arith, v₂t, v₁t, at, at_previous)) in
        unlink-third s₁ s₂ ep et at_previous p₁ p₂ v₁ v₂ at₂ same_data

    pub unlink-view : Unlinks
    unlink-view =
        let unused = c.unused in
        let used : t ≢ empty_index = λ same. ground (arith, same, unused, a_timer) in
        let b = c.backward t e.previous (ap previous_of at) a_timer used in
        let (ep, at_previous, back) = next-there (slab.get s e.previous) t b in
        let (s₁, p₁, v₁) = set_next-view s e.previous e.next ep at_previous in
        unlink-second s₁ ep at_previous p₁ v₁
