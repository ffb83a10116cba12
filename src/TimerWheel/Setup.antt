-- ===== src/TimerWheel/Setup.antt =====
-- `TimerWheel::init`, which gives every slot its head entry, and the wheel that it leaves.
use vpp_plugin_rs.Prelude.{
  sym, ap, subst, Bool-cases, ℕ, zero, suc, ◌+◌, ◌%◌, ◌^◌, ◌<◌, ◌≡◌, ◌≢◌, ◌⊎◌, inl, inr, refl, List,
  [], ◌∷◌, none, some, get_elem?, length, ◌==◌, arith,
}
use vpp_plugin_rs.Outcome.{usize_mod, u32_mod}
use vpp_plugin_rs.TimerWheel.Slab.{Slab, IsSlab}
use vpp_plugin_rs.TimerWheel.Entries.{empty_index, head, timer, TimerEntry}
use vpp_plugin_rs.TimerWheel.Wheel.{EntryList, Level, TimerWheel}
use vpp_plugin_rs.TimerWheel.Links.{next_of, data_of, IsLinked}
use vpp_plugin_rs.TimerWheel.Expiry.{IsWheel}

module _ {T S : Type 0} (slab : Slab (TimerEntry T) S) where
  abbrev pub head_entry : TimerEntry T
  head_entry = record { next = empty_index; previous = empty_index; entry_data = head }

  unfoldable pub insert_heads : ℕ → S → List EntryList × S
  insert_heads zero s = ([], s)
  insert_heads (suc n) s =
      let (key, s₁) = slab.insert s head_entry in
      let (lists, s₂) = insert_heads n s₁ in (record { head = key % u32_mod } ∷ lists, s₂)

  unfoldable pub insert_levels : ℕ → ℕ → S → List Level × S
  insert_levels zero num_slots s = ([], s)
  insert_levels (suc n) num_slots s =
      let (slots, s₁) = insert_heads num_slots s in
      let (levels, s₂) = insert_levels n num_slots s₁ in
      (record { slots = slots; position = 0 } ∷ levels, s₂)

  unfoldable pub init : ℕ → ℕ → TimerWheel S
  init num_levels num_slots =
      let (levels, timers) = insert_levels num_levels num_slots slab.new in
      record { timers = timers; levels = levels; current_time = 0 }

  -- The keys that the slab gives to so many heads fit a u32, without its largest number.
  abbrev pub HeadsFit : ℕ → S → Type 0
  HeadsFit zero s = Unit {0}
  HeadsFit (suc n) s =
      ((slab.insert s head_entry).0 < empty_index) × HeadsFit n (slab.insert s head_entry).1

  abbrev pub LevelsFit : ℕ → ℕ → S → Type 0
  LevelsFit zero num_slots s = Unit {0}
  LevelsFit (suc n) num_slots s =
      HeadsFit num_slots s × LevelsFit n num_slots (insert_heads num_slots s).1

  module _ (law : IsSlab slab) where
    -- The slab holds heads alone, and those of `s` among them.
    record HoldsHeads (s s' : S) : Type 0 where
      unused : slab.get s' empty_index ≡ none
      heads_only : (j : ℕ) → (slab.get s' j ≡ none) ⊎ (slab.get s' j ≡ some head_entry)
      kept : (j : ℕ) → slab.get s j ≡ some head_entry → slab.get s' j ≡ some head_entry

    HoldsHeads-trans : (s s₁ s₂ : S) → HoldsHeads s s₁ → HoldsHeads s₁ s₂ → HoldsHeads s s₂
    HoldsHeads-trans s s₁ s₂ a b = record {
      unused = b.unused;
      heads_only = b.heads_only;
      kept = λ j h. b.kept j (a.kept j h);
    }

    insert-HoldsHeads :
        (s : S)
        → HoldsHeads s s
        → (slab.insert s head_entry).0 < empty_index
        → HoldsHeads s (slab.insert s head_entry).1
    insert-HoldsHeads s a fits =
        let view =
          law.get_insert s head_entry (slab.insert s head_entry).0 (slab.insert s head_entry).1
            refl in
        record {
          unused = let v = view empty_index in let u = a.unused in ground (arith, v, u, fits);
          heads_only = λ j. elim (a.heads_only j) [
            | inl gone ↦ elim (Bool-cases ((slab.insert s head_entry).0 == j)) [
              | inl same ↦ inr (let v = view j in ground (arith, v, same))
              | inr other ↦ inl (let v = view j in ground (arith, v, other, gone))
            ]
            | inr there ↦ inr (let v = view j in ground (arith, v, there))
          ];
          kept = λ j h. let v = view j in ground (arith, v, h);
        }

    HoldsHeads-self : (s s' : S) → HoldsHeads s s' → HoldsHeads s' s'
    HoldsHeads-self s s' a = record {
      unused = a.unused;
      heads_only = a.heads_only;
      kept = λ j h. h;
    }

    inserted-at :
        (s : S)
        → (slab.insert s head_entry).0 < empty_index
        → slab.get (slab.insert s head_entry).1 ((slab.insert s head_entry).0 % u32_mod)
          ≡ some head_entry
    inserted-at s few =
        let key : ℕ = (slab.insert s head_entry).0 in
        let same : key % u32_mod ≡ key = omega (arith, few) in
        let view = law.get_insert s head_entry key (slab.insert s head_entry).1 refl key in
        subst (λ k. slab.get (slab.insert s head_entry).1 k ≡ some head_entry) (sym same)
          (ground (arith, view))

    -- So many head entries, each at an index of its own slot.
    record HasHeads (n : ℕ) (s : S) (lists : List EntryList) (s' : S) : Type 0 where
      holds : HoldsHeads s s'
      count : length lists ≡ n
      heads :
          (i : ℕ) (list : EntryList)
          → get_elem? lists i ≡ some list
          → slab.get s' list.head ≡ some head_entry

    insert_heads_lem :
        (n : ℕ) (s : S)
        → HoldsHeads s s
        → HeadsFit n s
        → HasHeads n s (insert_heads n s).0 (insert_heads n s).1
    unfolding insert_heads
    insert_heads_lem zero s a fits = record {
      holds = a;
      count = refl;
      heads = λ i list h. absurd (cc);
    }
    insert_heads_lem (suc n) s a (few, fits) =
        let key : ℕ = (slab.insert s head_entry).0 in
        let s₁ : S = (slab.insert s head_entry).1 in
        let b = insert-HoldsHeads s a few in
        let r = insert_heads_lem n s₁ (HoldsHeads-self s s₁ b) fits in
        record {
          holds = HoldsHeads-trans s s₁ (insert_heads n s₁).1 b r.holds;
          count = ap suc r.count;
          heads =
              first_or_later key s₁ (insert_heads n s₁).0 (insert_heads n s₁).1
                (r.holds.kept (key % u32_mod) (inserted-at s few)) r.heads;
        }
      where
        first_or_later :
            (key : ℕ) (s₁ : S) (lists : List EntryList) (s₂ : S)
            → slab.get s₂ (key % u32_mod) ≡ some head_entry
            → ((i : ℕ) (list : EntryList)
                → get_elem? lists i ≡ some list
                → slab.get s₂ list.head ≡ some head_entry)
            → (i : ℕ) (list : EntryList)
            → get_elem? (record { head = key % u32_mod } ∷ lists) i ≡ some list
            → slab.get s₂ list.head ≡ some head_entry
        first_or_later key s₁ lists s₂ at later zero list h =
            let e : record { head = key % u32_mod } ≡ list = cc in
            subst (λ (x : EntryList). slab.get s₂ x.head ≡ some head_entry) e at
        first_or_later key s₁ lists s₂ at later (suc i) list h = later i list h

    record HasLevels (n num_slots : ℕ) (s : S) (levels : List Level) (s' : S) : Type 0 where
      holds : HoldsHeads s s'
      count : length levels ≡ n
      level :
          (l : ℕ) (lv : Level)
          → get_elem? levels l ≡ some lv
          → (lv.position ≡ 0)
            × (length lv.slots ≡ num_slots)
            × ((i : ℕ) (list : EntryList)
                → get_elem? lv.slots i ≡ some list
                → slab.get s' list.head ≡ some head_entry)

    abbrev IsStarting : ℕ → S → Level → Type 0
    IsStarting num_slots s lv =
        (lv.position ≡ 0)
        × (length lv.slots ≡ num_slots)
        × ((i : ℕ) (list : EntryList)
            → get_elem? lv.slots i ≡ some list
            → slab.get s list.head ≡ some head_entry)

    level_or_later :
        (num_slots : ℕ) (lists : List EntryList) (levels : List Level) (s : S)
        → length lists ≡ num_slots
        → ((i : ℕ) (list : EntryList)
            → get_elem? lists i ≡ some list
            → slab.get s list.head ≡ some head_entry)
        → ((l : ℕ) (lv : Level) → get_elem? levels l ≡ some lv → IsStarting num_slots s lv)
        → (l : ℕ) (lv : Level)
        → get_elem? (record { slots = lists; position = 0 } ∷ levels) l ≡ some lv
        → IsStarting num_slots s lv
    level_or_later num_slots lists levels s count at later zero lv h =
        let first : Level = record { slots = lists; position = 0 } in
        let e : first ≡ lv = cc in subst (IsStarting num_slots s) e (refl, count, at)
    level_or_later num_slots lists levels s count at later (suc l) lv h = later l lv h

    insert_levels_lem :
        (n num_slots : ℕ) (s : S)
        → HoldsHeads s s
        → LevelsFit n num_slots s
        → HasLevels n num_slots s (insert_levels n num_slots s).0 (insert_levels n num_slots s).1
    unfolding insert_levels
    insert_levels_lem zero num_slots s a fits = record {
      holds = a;
      count = refl;
      level = λ l lv h. absurd (cc);
    }
    insert_levels_lem (suc n) num_slots s a (here, fits) =
        let b = insert_heads_lem num_slots s a here in
        let s₁ : S = (insert_heads num_slots s).1 in
        let r = insert_levels_lem n num_slots s₁ (HoldsHeads-self s s₁ b.holds) fits in
        record {
          holds = HoldsHeads-trans s s₁ (insert_levels n num_slots s₁).1 b.holds r.holds;
          count = ap suc r.count;
          level =
              level_or_later num_slots (insert_heads num_slots s).0 (insert_levels n num_slots s₁).0
                (insert_levels n num_slots s₁).1 b.count
                (λ i list h. r.holds.kept list.head (b.heads i list h)) r.level;
        }

    heads-IsLinked : (s s' : S) → HoldsHeads s s' → IsLinked (slab.get s') empty_index
    heads-IsLinked s s' a =
        let no_next : (k n : ℕ) → next_of (slab.get s' k) ≡ some n → n ≡ empty_index = λ k n h.
          elim (a.heads_only k) [
            | inl gone ↦ absurd (ground (arith, h, gone))
            | inr there ↦ ground (arith, h, there)
          ] in
        record {
          unused = a.unused;
          forward = λ k n h ne. absurd (ne (no_next k n h));
          backward = λ k p h t ne. elim (a.heads_only k) [
            | inl gone ↦ absurd (ground (arith, t, gone))
            | inr there ↦ absurd (ground (arith, t, there))
          ];
          unreferenced = λ k h. refl;
          headless = λ k n h ne. absurd (ne (no_next k n h));
          waiting = λ ne. absurd (ne refl);
          finite = λ k n h. ([], no_next k n h);
        }

    -- init leaves a valid wheel without timers, if there are levels and slots, the number of
    -- levels, twice the number of slots, and the number of slots to the power of the number of
    -- levels are below 2^64, and the keys that the slab gives to the heads are below 2^32 - 1. The
    -- slab is as the crate slab documents it.
    pub init-IsWheel :
        (num_levels num_slots : ℕ)
        → 0 < num_levels
        → 0 < num_slots
        → num_levels < usize_mod
        → num_slots + num_slots < usize_mod
        → num_slots ^ num_levels < usize_mod
        → LevelsFit num_levels num_slots slab.new
        → IsWheel slab num_levels num_slots (init num_levels num_slots) empty_index
          × ((j time : ℕ) (c : T)
              → data_of (slab.get (init num_levels num_slots).timers j) ≢ some (timer time c))
    unfolding init
    init-IsWheel num_levels num_slots some_level some_slot few small range fits =
        let empty : HoldsHeads slab.new slab.new = record {
          unused = law.get_new empty_index;
          heads_only = λ j. inl (law.get_new j);
          kept = λ j h. h;
        } in
        let r = insert_levels_lem num_levels num_slots slab.new empty fits in
        let s : S = (insert_levels num_levels num_slots slab.new).1 in
        let no_timer : (j time : ℕ) (c : T) → data_of (slab.get s j) ≢ some (timer time c) =
          λ j time c h. elim (r.holds.heads_only j) [
            | inl gone ↦ ground (arith, h, gone)
            | inr there ↦ ground (arith, h, there)
          ] in
        (
          record {
            links = heads-IsLinked slab.new s r.holds;
            shape = record {
              some_level = some_level;
              some_slot = some_slot;
              few = few;
              small = small;
              range = range;
              count = r.count;
              within = λ l lv h.
                  let (zeroth, count, at) = r.level l lv h in
                  (omega (arith, zeroth, some_slot), count);
            };
            heads = λ l lv i list h at.
                let (zeroth, count, found) = r.level l lv h in ap data_of (found i list at);
            clock = omega arith;
            times = λ j time c h. absurd (no_timer j time c h);
          },
          no_timer,
        )
