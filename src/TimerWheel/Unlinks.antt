-- ===== src/TimerWheel/Unlinks.antt =====
-- The links after `stop_timer` has taken a timer out of its list.
use vpp_plugin_rs.Prelude.{
  refl, Option-cases, inr, inl, Bool-cases, subst, ℕ, ◌≡◌, ◌≢◌, true, none, some, List, [], ◌∷◌,
  if◌then◌else◌, ◌==◌, arith,
}
use vpp_plugin_rs.TimerWheel.Entries.{empty_index, TimerEntry}
use vpp_plugin_rs.TimerWheel.Links.{
  Entries, next_of, previous_of, is_timer, Chain, IsLinked, relinked, renexted,
}

module _ {T : Type 0} (g : Entries T) (t : ℕ) (e : TimerEntry T) where
  abbrev pub unlinked : Entries T
  unlinked j =
      if t == j
      then none
      else if e.next == j
      then relinked e.previous (if e.previous == j then renexted e.next (g j) else g j)
      else if e.previous == j
      then renexted e.next (g j)
      else g j

  module _ (c : IsLinked g empty_index) (at_timer : g t ≡ some e)
      (a_timer : is_timer (g t) ≡ true) where
    -- No timer follows itself.
    next_other : (ts : List ℕ) → Chain g t ts → next_of (g t) ≡ some t → ⊥
    next_other [] r loop = let a = c.unused in ground (arith, a, r, at_timer)
    next_other (x ∷ ts) (same, ne, (n, at_next, r)) loop =
        next_other ts (subst (λ y. Chain g y ts) (ground (arith, same, at_next, loop)) r) loop

    not_itself : e.next ≢ t
    not_itself same =
        let loop : next_of (g t) ≡ some t = ground (arith, same, at_timer) in
        let (ts, r) = c.finite t t loop in next_other ts r loop

    unlinked-unused : unlinked empty_index ≡ none
    unlinked-unused = let a = c.unused in ground (arith, a)

    unlinked-forward :
        (k n : ℕ)
        → next_of (unlinked k) ≡ some n
        → n ≢ empty_index
        → previous_of (unlinked n) ≡ some k
    unlinked-forward k n h ne =
        let a = c.unused in
        let f = c.forward k n in
        let ft = c.forward t e.next in
        let fk = c.forward k e.next in
        let fkt = c.forward k t in
        let b = c.backward t e.previous in
        let o = not_itself in ground (arith, a, f, ft, fk, fkt, b, o, h, ne, at_timer, a_timer)

    unlinked-backward :
        (k p : ℕ)
        → previous_of (unlinked k) ≡ some p
        → is_timer (unlinked k) ≡ true
        → next_of (unlinked p) ≡ some k
    unlinked-backward k p h tk =
        let a = c.unused in
        let b = c.backward k p in
        let bt = c.backward t e.previous in
        let f = c.forward t e.next in
        let fk = c.forward p t in
        let bk = c.backward k t in
        let o = not_itself in ground (arith, a, f, fk, b, bt, bk, o, h, tk, at_timer, a_timer)

    unlinked-headless :
        (k n : ℕ) → next_of (unlinked k) ≡ some n → n ≢ empty_index → is_timer (unlinked n) ≡ true
    unlinked-headless k n h ne =
        let a = c.headless k n in
        let at = c.headless t e.next in
        let fk = c.forward k t in
        let b = c.backward t e.previous in
        let o = not_itself in ground (arith, a, at, fk, b, o, h, ne, at_timer, a_timer)

    -- Where a list goes on that went on at `x`.
    abbrev skip : ℕ → ℕ
    skip x = if t == x then e.next else x

    skip-next : (k n : ℕ) → k ≢ t → next_of (g k) ≡ some n → next_of (unlinked k) ≡ some (skip n)
    skip-next k n other h =
        let f = c.forward k t in
        let b = c.backward t e.previous in
        let a = c.unused in ground (arith, f, b, a, other, h, at_timer, a_timer)

    unlinked-Chain :
        (ts : List ℕ) (x : ℕ) → Chain g x ts → (rest : List ℕ) × Chain unlinked (skip x) rest
    unlinked-Chain [] x r = ([], let a = c.unused in ground (arith, a, r, at_timer))
    unlinked-Chain (y ∷ ts) x (same, ne, (n, at_next, r)) =
        let (rest, r') = unlinked-Chain ts n r in
        let o = not_itself in
        elim (Bool-cases (t == y)) [
          | inl here ↦ (
            rest,
            subst (λ z. Chain unlinked z rest) (ground (arith, at_next, at_timer, here, same, o))
                r',
          )
          | inr there ↦ (
            y ∷ rest,
            (
              ground (arith, same, there),
              ne,
              (skip n, skip-next y n (ground (arith, there)) at_next, r'),
            ),
          )
        ]

    unlinked-finite :
        (k n : ℕ) → next_of (unlinked k) ≡ some n → (ts : List ℕ) × Chain unlinked n ts
    unlinked-finite k n h = elim (Option-cases (next_of (g k))) [
      | inl none_there ↦ absurd (ground (arith, h, none_there))
      | inr (m, at_next) ↦
          let other : k ≢ t = ground (arith, h) in
          let (ts, r) = c.finite k m at_next in
          let (rest, r') = unlinked-Chain ts m r in
          let moved = skip-next k m other at_next in
          (rest, subst (λ z. Chain unlinked z rest) (ground (arith, h, moved)) r')
    ]

    pub unlinked-IsLinked : IsLinked unlinked empty_index
    unlinked-IsLinked = record {
      unused = unlinked-unused;
      forward = unlinked-forward;
      backward = λ k p h tk ne. unlinked-backward k p h tk;
      unreferenced = λ k h. refl;
      headless = unlinked-headless;
      waiting = λ ne. absurd (ne refl);
      finite = unlinked-finite;
    }
