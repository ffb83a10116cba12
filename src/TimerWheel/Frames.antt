-- ===== src/TimerWheel/Frames.antt =====
-- The links after an insertion, after a removal, and where a list is detached from its head.
use vpp_plugin_rs.Prelude.{
  inr, ap, sym, inl, Bool-cases, subst, ◌∙◌, ℕ, ◌≡◌, ◌≢◌, true, false, none, some, List, [], ◌∷◌,
  if◌then◌else◌, ◌==◌, arith,
}
use vpp_plugin_rs.TimerWheel.Entries.{empty_index, TimerEntry}
use vpp_plugin_rs.TimerWheel.Links.{Entries, next_of, data_of, is_timer, Chain, IsLinked}

-- Lists stay where their entries keep their successors.
pub Chain-frame :
    {T : Type 0} (g g' : Entries T) (ts : List ℕ) (x : ℕ) (P : ℕ → Type 0)
    → ((k n : ℕ)
        → P k
        → next_of (g k) ≡ some n
        → (next_of (g' k) ≡ some n) × (n ≢ empty_index → P n))
    → (x ≢ empty_index → P x)
    → Chain g x ts
    → Chain g' x ts
Chain-frame g g' [] x P same k e = e
Chain-frame g g' (t ∷ ts) x P same k (e, ne, (n, at_next, rest)) =
    let pt : P t = subst P e (k (subst (λ y. y ≢ empty_index) (sym e) ne)) in
    let (next', pn) = same t n pt at_next in
    (e, ne, (n, next', Chain-frame g g' ts n P same pn rest))

module _ {T : Type 0} (g : Entries T) (i : ℕ) (ei : TimerEntry T) where
  abbrev pub removed : Entries T
  removed j = if i == j then none else g j

  module _ (c : IsLinked g i) (at_pending : g i ≡ some ei) (i_used : i ≢ empty_index) where
    removed-Chain :
        (k n : ℕ) (ts : List ℕ) → next_of (g k) ≡ some n → Chain g n ts → Chain removed n ts
    removed-Chain k n ts e r =
        Chain-frame g removed ts n (λ x. x ≢ i)
          (λ y m py at_next. (
            ground (arith, py, at_next),
            λ ne same. i_used (c.unreferenced y (at_next ∙ ap some same)),
          ))
          (λ ne same. i_used (c.unreferenced k (e ∙ ap some same))) r

    removed-finite : (k n : ℕ) → next_of (removed k) ≡ some n → (ts : List ℕ) × Chain removed n ts
    removed-finite k n e =
        let e' : next_of (g k) ≡ some n = ground (arith, e) in
        let (ts, r) = c.finite k n e' in (ts, removed-Chain k n ts e' r)

    pub removed-rest : (ts : List ℕ) → Chain g ei.next ts → Chain removed ei.next ts
    removed-rest ts r = removed-Chain i ei.next ts (ap next_of at_pending) r

    pub removed-IsLinked : IsLinked removed ei.next
    removed-IsLinked = record {
      unused = let a = c.unused in ground (arith, a);
      forward = λ k n e ne.
          let f = c.forward k n in let u = c.unreferenced k in ground (arith, f, u, e, ne, i_used);
      backward = λ k p e t ne.
          let f = c.backward k p in
          let fi = c.forward i ei.next in
          ground (arith, f, fi, e, t, ne, i_used, at_pending, c.unused);
      unreferenced = λ k e.
          let f = c.forward k ei.next in
          let fi = c.forward i ei.next in ground (arith, f, fi, e, at_pending);
      headless = λ k n e ne.
          let f = c.headless k n in let u = c.unreferenced k in ground (arith, f, u, e, ne, i_used);
      waiting = λ ne.
          let f = c.headless i ei.next in
          let u = c.unreferenced i in ground (arith, f, u, ne, at_pending, i_used);
      finite = removed-finite;
    }

module _ {T : Type 0} (g : Entries T) (key : ℕ) (e : TimerEntry T) where
  abbrev pub inserted : Entries T
  inserted j = if key == j then some e else g j

  module _ (c : IsLinked g empty_index) (vacant : g key ≡ none) (used : key ≢ empty_index)
      (no_next : e.next ≡ empty_index) (a_timer : is_timer (some e) ≡ true) where
    not_next : (k : ℕ) → next_of (g k) ≡ some key → key ≡ empty_index
    not_next k e = let f = c.forward k key in ground (arith, f, vacant, e, used)

    inserted-finite :
        (k n : ℕ) → next_of (inserted k) ≡ some n → (ts : List ℕ) × Chain inserted n ts
    inserted-finite k n h = elim (Bool-cases (key == k)) [
      | inl same ↦ ([], ground (arith, h, same, no_next))
      | inr other ↦
          let h' : next_of (g k) ≡ some n = ground (arith, h, other) in
          let (ts, r) = c.finite k n h' in
          (
            ts,
            Chain-frame g inserted ts n (λ x. x ≢ key)
                (λ y m py at_next. (
                  ground (arith, py, at_next),
                  λ ne same. used (not_next y (at_next ∙ ap some same)),
                ))
                (λ ne same. used (not_next k (h' ∙ ap some same))) r,
          )
    ]

    pub inserted-IsLinked : IsLinked inserted key
    inserted-IsLinked = record {
      unused = let a = c.unused in ground (arith, a, used);
      forward = λ k n h ne. let f = c.forward k n in ground (arith, f, vacant, h, ne, no_next);
      backward = λ k p h t ne.
          let f = c.backward k p in
          let nk = not_next p in ground (arith, f, h, t, ne, vacant, c.unused);
      unreferenced = λ k h. let f = not_next k in ground (arith, f, h, no_next, used);
      headless = λ k n h ne. let f = c.headless k n in ground (arith, f, h, ne, no_next, a_timer);
      waiting = λ ne. ground (arith, a_timer);
      finite = inserted-finite;
    }

module _ {T : Type 0} (g : Entries T) (h : ℕ) (eh : TimerEntry T) where
  abbrev pub detached : Entries T
  detached j = if h == j then some (record eh { next = empty_index }) else g j

  module _ (c : IsLinked g empty_index) (at_head : g h ≡ some eh)
      (a_head : is_timer (g h) ≡ false) where
    detached-Chain :
        (k n : ℕ) (ts : List ℕ) → next_of (g k) ≡ some n → Chain g n ts → Chain detached n ts
    detached-Chain k n ts e r =
        Chain-frame g detached ts n (λ x. is_timer (g x) ≡ true)
          (λ y m py at_next. (ground (arith, py, at_next, a_head), λ ne. c.headless y m at_next ne))
          (λ ne. c.headless k n e ne) r

    pub detached-rest : (ts : List ℕ) × Chain detached eh.next ts
    detached-rest =
        let (ts, r) = c.finite h eh.next (ap next_of at_head) in
        (ts, detached-Chain h eh.next ts (ap next_of at_head) r)

    detached-finite :
        (k n : ℕ) → next_of (detached k) ≡ some n → (ts : List ℕ) × Chain detached n ts
    detached-finite k n e = elim (Bool-cases (h == k)) [
      | inl same ↦ ([], ground (arith, e, same))
      | inr other ↦
          let e' : next_of (g k) ≡ some n = ground (arith, e, other) in
          let (ts, r) = c.finite k n e' in (ts, detached-Chain k n ts e' r)
    ]

    pub detached-data : (j : ℕ) → data_of (detached j) ≡ data_of (g j)
    detached-data j = ground (arith, at_head)

    pub detached-IsLinked : IsLinked detached eh.next
    detached-IsLinked = record {
      unused = let a = c.unused in ground (arith, a, at_head);
      forward = λ k n e ne. let f = c.forward k n in ground (arith, f, e, ne, at_head);
      backward = λ k p e t ne.
          let f = c.backward k p in ground (arith, f, e, t, ne, at_head, a_head, c.unused);
      unreferenced = λ k e.
          let f = c.forward k eh.next in
          let fh = c.forward h eh.next in ground (arith, f, fh, e, at_head);
      headless = λ k n e ne. let f = c.headless k n in ground (arith, f, e, ne, at_head, a_head);
      waiting = λ ne. let f = c.headless h eh.next in ground (arith, f, ne, at_head, a_head);
      finite = detached-finite;
    }
