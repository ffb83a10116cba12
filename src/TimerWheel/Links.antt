-- ===== src/TimerWheel/Links.antt =====
-- The doubly linked lists of a wheel: what holds of the links between the entries, where `pending` is
-- the one timer that is in no list.
use vpp_plugin_rs.Prelude.{
  inr, inl, Bool-cases, ap, ◌∙◌, sym, subst, ℕ, ◌≡◌, ◌≢◌, Bool, true, false, Option, none, some,
  List, [], ◌∷◌, if◌then◌else◌, ◌==◌, arith,
}
use vpp_plugin_rs.TimerWheel.Entries.{empty_index, TimerEntryData, head, timer, TimerEntry}

abbrev pub Entries : Type 0 → Type 0
Entries T = ℕ → Option (TimerEntry T)

module _ {T : Type 0} where
  abbrev pub next_of : Option (TimerEntry T) → Option ℕ
  next_of none = none
  next_of (some e) = some e.next

  abbrev pub previous_of : Option (TimerEntry T) → Option ℕ
  previous_of none = none
  previous_of (some e) = some e.previous

  abbrev pub data_of : Option (TimerEntry T) → Option (TimerEntryData T)
  data_of none = none
  data_of (some e) = some e.entry_data

  abbrev pub is_timer : Option (TimerEntry T) → Bool
  is_timer none = false
  is_timer (some e) = elim e.entry_data [ head ↦ false | timer time c ↦ true ]

  -- The list of the entries from an index on.
  abbrev pub Chain : Entries T → ℕ → List ℕ → Type 0
  Chain g i [] = i ≡ empty_index
  Chain g i (t ∷ ts) =
      (i ≡ t) × (t ≢ empty_index) × ((n : ℕ) × (next_of (g t) ≡ some n) × Chain g n ts)

  pub record IsLinked (g : Entries T) (pending : ℕ) : Type 0 where
    pub unused : g empty_index ≡ none
    pub forward : (k n : ℕ) → next_of (g k) ≡ some n → n ≢ empty_index → previous_of (g n) ≡ some k
    pub backward :
        (k p : ℕ)
        → previous_of (g k) ≡ some p
        → is_timer (g k) ≡ true
        → k ≢ pending
        → next_of (g p) ≡ some k
    pub unreferenced : (k : ℕ) → next_of (g k) ≡ some pending → pending ≡ empty_index
    pub headless : (k n : ℕ) → next_of (g k) ≡ some n → n ≢ empty_index → is_timer (g n) ≡ true
    pub waiting : pending ≢ empty_index → is_timer (g pending) ≡ true
    pub finite : (k n : ℕ) → next_of (g k) ≡ some n → (ts : List ℕ) × Chain g n ts

  abbrev pub renexted : ℕ → Option (TimerEntry T) → Option (TimerEntry T)
  renexted i none = none
  renexted i (some e) = some (record e { next = i })

  -- What `link` makes of the entries, where the head `h` is `eh` and the pending entry `i` is `ei`.
  abbrev pub relinked : ℕ → Option (TimerEntry T) → Option (TimerEntry T)
  relinked i none = none
  relinked i (some e) = some (record e { previous = i })

  module _ (g : Entries T) (h i : ℕ) (eh ei : TimerEntry T) where
    abbrev pub linked : Entries T
    linked j =
        if eh.next == j
        then relinked i (g j)
        else if i == j
        then some (record ei { next = eh.next; previous = h })
        else if h == j
        then some (record eh { next = i })
        else g j

    module _ (c : IsLinked g i) (at_head : g h ≡ some eh) (at_pending : g i ≡ some ei)
        (is_head : is_timer (g h) ≡ false) (i_lt : i ≢ empty_index) where
      linked-unused : linked empty_index ≡ none
      linked-unused = let a = c.unused in ground (arith, a)

      linked-forward :
          (k n : ℕ)
          → next_of (linked k) ≡ some n
          → n ≢ empty_index
          → previous_of (linked n) ≡ some k
      linked-forward k n e ne =
          let a = c.unused in
          let f = c.forward k n in
          let fh = c.forward h eh.next in
          let u = c.unreferenced k in
          let uh = c.unreferenced h in
          let hh = c.headless h eh.next in
          let hk = c.headless k n in ground (arith, a, f, fh, u, uh, hh, hk, at_head, at_pending)

      linked-backward :
          (k p : ℕ)
          → previous_of (linked k) ≡ some p
          → is_timer (linked k) ≡ true
          → k ≢ ei.next
          → next_of (linked p) ≡ some k
      linked-backward k p e t ne =
          let a = c.unused in
          let f = c.backward k p in
          let fi = c.forward i ei.next in
          let fh = c.forward h eh.next in
          let u = c.unreferenced p in
          let uh = c.unreferenced h in
          let hh = c.headless h eh.next in
          ground (arith, a, f, fh, fi, u, uh, hh, at_head, at_pending)

      linked-unreferenced : (k : ℕ) → next_of (linked k) ≡ some ei.next → ei.next ≡ empty_index
      linked-unreferenced k e =
          let a = c.unused in
          let f = c.forward k ei.next in
          let fi = c.forward i ei.next in
          let fh = c.forward h eh.next in
          let u = c.unreferenced k in
          let ui = c.unreferenced i in
          let uh = c.unreferenced h in ground (arith, a, f, fh, fi, u, uh, ui, at_head, at_pending)

      linked-headless :
          (k n : ℕ) → next_of (linked k) ≡ some n → n ≢ empty_index → is_timer (linked n) ≡ true
      linked-headless k n e ne =
          let a = c.unused in
          let w = c.waiting i_lt in
          let hh = c.headless h eh.next in
          let hk = c.headless k n in ground (arith, a, w, hh, hk, at_head, at_pending)

      linked-waiting : ei.next ≢ empty_index → is_timer (linked ei.next) ≡ true
      linked-waiting ne =
          let w = c.waiting i_lt in
          let hk = c.headless i ei.next in ground (arith, w, hk, at_head, at_pending)

      -- The lists of before, as far as they start at a timer that is in a list.
      linked-Chain :
          (ts : List ℕ) (x : ℕ)
          → (x ≢ empty_index → (x ≢ i) × (is_timer (g x) ≡ true))
          → Chain g x ts
          → Chain linked x ts
      linked-Chain [] x k e = e
      linked-Chain (t ∷ ts) x k (e, ne, (n, at_next, rest)) =
          let a = c.unused in
          let kx = k (subst (λ y. y ≢ empty_index) (sym e) ne) in
          let next_same : next_of (linked t) ≡ some n =
            ground (arith, a, e, kx, at_next, at_head, is_head) in
          let u = c.unreferenced t in
          let hn = c.headless t n in
          (
            e,
            ne,
            (
              n,
              next_same,
              linked-Chain ts n (λ ne. (λ same. i_lt (u (at_next ∙ ap some same)), hn at_next ne))
                  rest,
            ),
          )

      linked-behind : (k n : ℕ) → next_of (g k) ≡ some n → (ts : List ℕ) × Chain linked n ts
      linked-behind k n e =
          let u = c.unreferenced k in
          let hn = c.headless k n in
          let (ts, r) = c.finite k n e in
          (ts, linked-Chain ts n (λ ne. (λ same. i_lt (u (e ∙ ap some same)), hn e ne)) r)

      linked-finite : (k n : ℕ) → next_of (linked k) ≡ some n → (ts : List ℕ) × Chain linked n ts
      linked-finite k n e =
          let a = c.unused in
          let u = c.unreferenced h in
          let hh = c.headless h eh.next in
          let i_next : next_of (linked i) ≡ some eh.next =
            ground (arith, a, u, at_head, at_pending) in
          let h_next : next_of (linked h) ≡ some i =
            ground (arith, a, hh, at_head, at_pending, is_head) in
          let (ts, r) = linked-behind h eh.next (ap next_of at_head) in
          elim (Bool-cases (i == k)) [
            | inl same ↦ (ts, subst (λ m. Chain linked m ts) (ground (arith, i_next, e, same)) r)
            | inr other ↦ elim (Bool-cases (h == k)) [
              | inl same ↦ (i ∷ ts, (ground (arith, h_next, e, same), i_lt, (eh.next, i_next, r)))
              | inr otherwise ↦ linked-behind k n (ground (arith, a, e, other, otherwise))
            ]
          ]

      pub linked-IsLinked : IsLinked linked ei.next
      linked-IsLinked = record {
        unused = linked-unused;
        forward = linked-forward;
        backward = linked-backward;
        unreferenced = linked-unreferenced;
        headless = linked-headless;
        waiting = linked-waiting;
        finite = linked-finite;
      }

      pub linked-rest : (ts : List ℕ) → Chain g ei.next ts → Chain linked ei.next ts
      linked-rest ts r =
          let u = c.unreferenced i in
          let hn = c.headless i ei.next in
          let at_next : next_of (g i) ≡ some ei.next = ap next_of at_pending in
          linked-Chain ts ei.next (λ ne. (λ same. i_lt (u (at_next ∙ ap some same)), hn at_next ne))
            r

      pub linked-data : (j : ℕ) → data_of (linked j) ≡ data_of (g j)
      linked-data j = ground (arith, at_head, at_pending)
