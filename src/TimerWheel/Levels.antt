-- ===== src/TimerWheel/Levels.antt =====
-- One level after the other: detaching the list of the current slot, and moving to the next slot.
use vpp_plugin_rs.TimerWheel.Entries.{set_next, empty_index, head, TimerEntry}
use vpp_plugin_rs.TimerWheel.Wheel.{head_of, Level, TimerWheel}
use vpp_plugin_rs.Prelude.{
  fun_ext, subst, ap, ◌∙◌, length-set, sym, ℕ, zero, suc, ◌+◌, ◌%◌, ◌<◌, ◌≡◌, ◌⊎◌, inl, inr, refl,
  Bool, false, List, [], ◌∷◌, some, get_elem?, set, length, arith,
}
use vpp_plugin_rs.TimerWheel.Placement.{rem_word-ok, get_elem?_lt}
use native.Mathlib.Nat.{mod-lt}
use vpp_plugin_rs.Outcome.{ok}
use vpp_plugin_rs.TimerWheel.Slab.{Slab, IsSlab}
use vpp_plugin_rs.TimerWheel.Links.{data_of, is_timer, Chain, IsLinked}
use vpp_plugin_rs.TimerWheel.Frames.{detached-IsLinked, detached-rest, detached-data}
use vpp_plugin_rs.TimerWheel.Timers.{detach, advance_position}
use vpp_plugin_rs.TimerWheel.Store.{set_next-view, data-there}
use vpp_plugin_rs.TimerWheel.Expiry.{IsWheel, Expires-none}
use vpp_plugin_rs.TimerWheel.Starting.{expired-IsWheel, head_of_lem}

pub get_elem?-set {ℓ} :
    {A : Type ℓ} (xs : List A) (i : ℕ) (v : A) (j : ℕ) (x : A)
    → get_elem? (set xs i v) j ≡ some x
    → ((i ≡ j) × (x ≡ v)) ⊎ (get_elem? xs j ≡ some x)
get_elem?-set [] i v j x h = inr h
get_elem?-set (y ∷ xs) zero v zero x h = inl (refl, sym (ground (arith, h)))
get_elem?-set (y ∷ xs) zero v (suc j) x h = inr h
get_elem?-set (y ∷ xs) (suc i) v zero x h = inr h
get_elem?-set (y ∷ xs) (suc i) v (suc j) x h = elim (get_elem?-set xs i v j x h) [
  | inl (e, same) ↦ inl (ap suc e, same)
  | inr was ↦ inr was
]

module _ {T S : Type 0} (slab : Slab (TimerEntry T) S) (law : IsSlab slab) (checks : Bool)
    (num_levels num_slots : ℕ) where
  pub record Detaches (w : TimerWheel S) (level : ℕ) : Type 0 where
    pub first : ℕ
    pub timers : S
    pub list : List ℕ
    pub runs :
        detach slab checks num_levels num_slots w level ≡ ok (first, record w { timers = timers })
    pub valid : IsWheel slab num_levels num_slots (record w { timers = timers }) first
    pub same_data : (j : ℕ) → data_of (slab.get timers j) ≡ data_of (slab.get w.timers j)
    pub chain : Chain (slab.get timers) first list

  detach-run :
      (w : TimerWheel S) (level h : ℕ) (lv : Level) (eh : TimerEntry T) (s : S)
      → get_elem? w.levels level ≡ some lv
      → head_of w.levels (level, lv.position) ≡ ok h
      → slab.get w.timers h ≡ some eh
      → set_next slab w.timers h empty_index ≡ ok s
      → detach slab checks num_levels num_slots w level ≡ ok (eh.next, record w { timers = s })
  unfolding detach
  detach-run w level h lv eh s at_level found at_head p = rw (at_level, found, at_head, p) refl

  pub detach_lem :
      (w : TimerWheel S) (level : ℕ)
      → IsWheel slab num_levels num_slots w empty_index
      → level < num_levels
      → Detaches w level
  detach_lem w level inv lt =
      let (lv, at_level) = get_elem?_lt w.levels level (omega (arith, lt, inv.shape.count)) in
      let (low, slots) = inv.shape.within level lv at_level in
      let (h, found, head_data) =
        head_of_lem slab law checks num_levels num_slots w empty_index (level, lv.position) inv
          (lt, low) in
      let (eh, at_head, a_head) = data-there (slab.get w.timers h) head head_data in
      let not_timer : is_timer (slab.get w.timers h) ≡ false = ground (arith, at_head, a_head) in
      let (s, p, view) = set_next-view slab law w.timers h empty_index eh at_head in
      let same : (j : ℕ) → data_of (slab.get s j) ≡ data_of (slab.get w.timers j) = λ j.
        ap data_of (view j)
        ∙ detached-data (slab.get w.timers) h eh inv.links at_head not_timer j in
      let (ts, r) = detached-rest (slab.get w.timers) h eh inv.links at_head not_timer in
      record {
        first = eh.next;
        timers = s;
        list = ts;
        runs = detach-run w level h lv eh s at_level found at_head p;
        valid =
            expired-IsWheel slab law checks num_levels num_slots w s empty_index eh.next [] inv
              (subst (λ g. IsLinked g eh.next) (sym (fun_ext view))
                (detached-IsLinked (slab.get w.timers) h eh inv.links at_head not_timer))
              (Expires-none w.current_time (slab.get w.timers) (slab.get s) same);
        same_data = same;
        chain = subst (λ g. Chain g eh.next ts) (sym (fun_ext view)) r;
      }

  advanced-IsWheel :
      (w : TimerWheel S) (level position : ℕ) (lv : Level)
      → IsWheel slab num_levels num_slots w empty_index
      → get_elem? w.levels level ≡ some lv
      → position < num_slots
      → IsWheel slab num_levels num_slots
          (record w { levels = set w.levels level (record lv { position = position }) })
          empty_index
  advanced-IsWheel w level position lv inv at_level low =
      let lv' : Level = record lv { position = position } in
      record {
        links = inv.links;
        shape = record {
          some_level = inv.shape.some_level;
          some_slot = inv.shape.some_slot;
          few = inv.shape.few;
          small = inv.shape.small;
          range = inv.shape.range;
          count = length-set w.levels level lv' ∙ inv.shape.count;
          within = λ l lv₂ at. elim (get_elem?-set w.levels level lv' l lv₂ at) [
            | inl (same, e) ↦ (
              subst (λ (x : Level). x.position < num_slots) (sym e) low,
              ap (λ (x : Level). length x.slots) e ∙ (inv.shape.within level lv at_level).1,
            )
            | inr was ↦ inv.shape.within l lv₂ was
          ];
        };
        heads = λ l lv₂ i list at in_slot. elim (get_elem?-set w.levels level lv' l lv₂ at) [
          | inl (same, e) ↦
              inv.heads level lv i list at_level
                (ap (λ (x : Level). get_elem? x.slots i) (sym e) ∙ in_slot)
          | inr was ↦ inv.heads l lv₂ i list was in_slot
        ];
        clock = inv.clock;
        times = inv.times;
      }

  pub record Advances (w : TimerWheel S) (level : ℕ) : Type 0 where
    pub position : ℕ
    pub levels : List Level
    pub runs :
        advance_position slab checks num_levels num_slots w level
        ≡ ok (position, record w { levels = levels })
    pub valid : IsWheel slab num_levels num_slots (record w { levels = levels }) empty_index

  pub advance_position_lem :
      (w : TimerWheel S) (level : ℕ)
      → IsWheel slab num_levels num_slots w empty_index
      → level < num_levels
      → Advances w level
  advance_position_lem w level inv lt =
      let (lv, at_level) = get_elem?_lt w.levels level (omega (arith, lt, inv.shape.count)) in
      record {
        position = (lv.position + 1) % num_slots;
        levels = set w.levels level (record lv { position = (lv.position + 1) % num_slots });
        runs = rw (at_level, rem_word-ok (lv.position + 1) num_slots inv.shape.some_slot) refl;
        valid =
            advanced-IsWheel w level ((lv.position + 1) % num_slots) lv inv at_level
              (mod-lt (lv.position + 1) inv.shape.some_slot);
      }
