-- ===== src/TaskTimers/Marks.antt =====
-- What the loop of `expire_timers` in process_node/tw_timer.rs leaves of the states of the timers.
use vpp_plugin_rs.Prelude.{
  Bool-cases, ℕ, ◌≡◌, refl, Bool, true, false, ◌||◌, Option, none, some, List, [], ◌∷◌, inl, inr,
  if◌then◌else◌, ◌==◌, arith,
}
use vpp_plugin_rs.TimerWheel.Slab.{Slab, IsSlab}
use vpp_plugin_rs.TimerWheel.Entries.{TimerEntry}
use vpp_plugin_rs.TimerWheel.Expiry.{Among}
use vpp_plugin_rs.TaskTimers.{TimerState, expired, mark_if, mark_all}

abbrev pub marked : Option TimerState → Option TimerState
marked none = none
marked (some entry) = some expired

abbrev pub is_among : ℕ → List ℕ → Bool
is_among j [] = false
is_among j (h ∷ hs) = h == j || is_among j hs

pub is_among-Among : (j : ℕ) (hs : List ℕ) → is_among j hs ≡ true → Among j hs
is_among-Among j [] e = absurd (cc)
is_among-Among j (h ∷ hs) e = elim (Bool-cases (h == j)) [
  | inl same ↦ inl (ground (arith, same))
  | inr other ↦ inr (is_among-Among j hs (ground (arith, e, other)))
]

pub Among-is_among : (j : ℕ) (hs : List ℕ) → Among j hs → is_among j hs ≡ true
Among-is_among j [] m = absurd m
Among-is_among j (h ∷ hs) (inl e) = ground (arith, e)
Among-is_among j (h ∷ hs) (inr m) = let ih = Among-is_among j hs m in ground (arith, ih)

module _ {S R : Type 0} (slab : Slab (TimerEntry ℕ) S) (states : Slab TimerState R)
    (law : IsSlab states) (checks : Bool) (num_levels num_slots : ℕ) where
  get-mark_if :
      (r : R) (h j : ℕ) (e : Option TimerState)
      → states.get r h ≡ e
      → states.get (mark_if slab states checks num_levels num_slots r h e) j
        ≡ (if h == j then marked (states.get r j) else states.get r j)
  get-mark_if r h j none at = ground (arith, at)
  get-mark_if r h j (some e) at = let p = law.get_put r h e expired j at in ground (arith, p, at)

  pub get-mark_all :
      (r : R) (hs : List ℕ) (j : ℕ)
      → states.get (mark_all slab states checks num_levels num_slots r hs) j
        ≡ (if is_among j hs then marked (states.get r j) else states.get r j)
  unfolding mark_all
  get-mark_all r [] j = refl
  get-mark_all r (h ∷ hs) j =
      let e = states.get r h in
      let r' = mark_if slab states checks num_levels num_slots r h e in
      let first = get-mark_if r h j e refl in
      let ih = get-mark_all r' hs j in ground (arith, first, ih)
