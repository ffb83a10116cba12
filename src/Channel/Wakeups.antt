-- ===== src/Channel/Wakeups.antt =====
-- The task that waits for the channel of mpsc.rs and the senders on other threads, as steps that may
-- come in any order: a send is the push and then the wake, a poll is the look at the queue and, where
-- that is empty, the registration.
use vpp_plugin_rs.Prelude.{
  Bool-cases, ℕ, ◌+◌, ◌-◌, ◌<◌, ◌≡◌, ◌≢◌, refl, ap, Bool, true, false, Option, none, some, [], ◌∷◌,
  ◌⊎◌, inl, inr, arith,
}
use vpp_plugin_rs.ApiGen.Statements.{is_some}
use vpp_plugin_rs.Channel.{
  AtomicWaker, IsAtomicWaker, Channel, TryRecv, empty, push, wake, channel, clone_sender,
  drop_sender, try_recv_inner, register,
}

-- The task runs, has seen an empty queue inside `poll_recv`, or has been told `Pending`.
pub data Stage : Type 0 where
  running : Stage
  checked : Stage
  waiting : Stage

-- `sending` counts the sends that have pushed their value and not yet woken the task.
pub record System (T A : Type 0) : Type 0 where
  pub chan : Channel T A
  pub sending : ℕ
  pub stage : Stage
  pub woken : Bool

abbrev woken_by : {W : Type 0} → Option W → Bool → Bool
woken_by none b = b
woken_by (some w) b = true

is_some-woken_by : {W : Type 0} → (w : Option W) (b : Bool) → is_some w ≡ true → woken_by w b ≡ true
is_some-woken_by none b e = cc
is_some-woken_by (some w) b e = refl

module _ {T W A : Type 0} (aw : AtomicWaker W A) where
  unfoldable pub start : System T A
  start = record { chan = channel aw; sending = 0; stage = running; woken = false }

  pub data Step (s : System T A) : System T A → Type 0 where
    pushes :
        (v : T) (c : Channel T A)
        → 0 < s.chan.senders
        → push aw s.chan v ≡ inr c
        → Step s (record s { chan = c; sending = s.sending + 1 })
    wakes :
        (w : Option W) (c : Channel T A)
        → 0 < s.sending
        → wake aw s.chan ≡ (w, c)
        → Step s (record s { chan = c; sending = s.sending - 1; woken = woken_by w s.woken })
    clones : 0 < s.chan.senders → Step s (record s { chan = clone_sender aw s.chan })
    drops :
        0 < s.chan.senders
        → (s.sending ≡ 0) ⊎ (1 < s.chan.senders)
        → Step s (record s { chan = drop_sender aw s.chan })
    takes :
        (r : TryRecv T) (c : Channel T A)
        → s.stage ≡ running
        → r ≢ empty
        → try_recv_inner aw s.chan ≡ (r, c)
        → Step s (record s { chan = c })
    checks :
        (c : Channel T A)
        → s.stage ≡ running
        → try_recv_inner aw s.chan ≡ (empty, c)
        → Step s (record s { chan = c; stage = checked })
    registers :
        (w : W)
        → s.stage ≡ checked
        → Step s (record s { chan = register aw s.chan w; stage = waiting })
    resumes :
        s.stage ≡ waiting → s.woken ≡ true → Step s (record s { stage = running; woken = false })

  pub data Reach (s : System T A) : System T A → Type 0 where
    here : Reach s s
    next : {t u : System T A} → Reach s t → Step t u → Reach s u

  -- The waker a task that waits unwoken has left is there for the next send.
  abbrev IsRegistered : System T A → Type 0
  IsRegistered s = s.stage ≡ waiting → s.woken ≡ false → is_some (aw.take s.chan.rx_waker).0 ≡ true

  Step-IsRegistered :
      IsAtomicWaker aw → {s t : System T A} → Step s t → IsRegistered s → IsRegistered t
  unfolding push wake clone_sender drop_sender try_recv_inner register
  Step-IsRegistered h (pushes v c some_sender e) i = ground arith
  Step-IsRegistered h (wakes w c some_send e) i = ground arith
  Step-IsRegistered h (clones some_sender) i = ground arith
  Step-IsRegistered h (drops some_sender quiet) i = ground arith
  Step-IsRegistered h (takes r c runs some_value e) i = ground arith
  Step-IsRegistered h (checks c runs e) i = ground arith
  Step-IsRegistered h {s} (registers w e) i = ground (arith, h.take_register w s.chan.rx_waker)
  Step-IsRegistered h (resumes waits e) i = ground arith

  Reach-IsRegistered :
      IsAtomicWaker aw → {s t : System T A} → IsRegistered s → Reach s t → IsRegistered t
  Reach-IsRegistered h i here = i
  Reach-IsRegistered h i (next r st) = Step-IsRegistered h st (Reach-IsRegistered h i r)

  after : {s t u : System T A} → Step s t → Reach t u → Reach s u
  after st here = next here st
  after st (next r last) = next (after st r) last

  woken_resumes :
      (s : System T A)
      → s.stage ≡ waiting
      → s.woken ≡ true
      → (t : System T A) × Reach s t × (t.stage ≡ running) × (t.chan.queue ≡ s.chan.queue)
  woken_resumes s waits woken =
      (record s { stage = running; woken = false }, next here (resumes waits woken), refl, refl)

  unwoken_resumes :
      (s : System T A)
      → s.stage ≡ waiting
      → 0 < s.sending
      → is_some (aw.take s.chan.rx_waker).0 ≡ true
      → (t : System T A) × Reach s t × (t.stage ≡ running) × (t.chan.queue ≡ s.chan.queue)
  unfolding wake
  unwoken_resumes s waits sends registered =
      let (w, c) = wake aw s.chan in
      let t = record s { chan = c; sending = s.sending - 1; woken = woken_by w s.woken } in
      let (u, r, runs, same) = woken_resumes t waits (is_some-woken_by w s.woken registered) in
      (u, after (wakes w c sends refl) r, runs, same)

  -- In every reachable state of a task and its senders in which the task waits and a send has
  -- pushed its value but not yet woken, the task can get to run again with that queue before it.
  -- The waker is as the crate futures documents it.
  pub start-resumes :
      IsAtomicWaker aw
      → {s : System T A} → Reach start s
      → s.stage ≡ waiting
      → 0 < s.sending
      → (t : System T A) × Reach s t × (t.stage ≡ running) × (t.chan.queue ≡ s.chan.queue)
  unfolding start
  start-resumes h {s} r waits sends = elim (Bool-cases s.woken) [
    | inl woken ↦ woken_resumes s waits woken
    | inr unwoken ↦ unwoken_resumes s waits sends (Reach-IsRegistered h (λ e f. cc) r waits unwoken)
  ]

  -- The task waits, nobody is about to wake it, and yet there is something for it to see.
  abbrev pub IsStranded : System T A → Type 0
  IsStranded s =
      (s.stage ≡ waiting)
      × (s.woken ≡ false)
      × (s.sending ≡ 0)
      × ((s.chan.queue ≢ []) ⊎ (s.chan.senders ≡ 0))

  -- The sender has pushed its value after the task has looked.
  raced : T → System T A
  raced v = record {
    chan = record (channel aw) { queue = v ∷ [] };
    sending = 1;
    stage = checked;
    woken = false;
  }

  start-raced : (v : T) → Reach start (raced v)
  unfolding start channel push try_recv_inner raced
  start-raced v =
      next (next here (checks (channel aw) refl refl)) (pushes v (raced v).chan (omega arith) refl)

  -- The waker is registered after the wake that it missed.
  start-lost :
      IsAtomicWaker aw
      → (v : T) (w : W) → (t : System T A) × Reach start t × IsStranded t × (t.chan.queue ≡ v ∷ [])
  unfolding start channel raced wake register
  start-lost h v w =
      let (none_left, c) = wake aw (raced v).chan in
      let missed = next (start-raced v) (wakes none_left c (omega arith) refl) in
      let unwoken = ap (λ x. woken_by x false) h.take_new in
      (_, next missed (registers w refl), (refl, unwoken, refl, inl (λ e. cc)), refl)

  -- From a new channel a state can be reached in which the task waits, no send is under way and
  -- nothing has woken it, though a value is queued; and one in which it waits like this though the
  -- last sender is gone. The waker is as the crate futures documents it.
  pub start-strands :
      IsAtomicWaker aw
      → (v : T) (w : W)
      → ((t : System T A) × Reach start t × IsStranded t × (t.chan.queue ≡ v ∷ []))
        × ((t : System T A) × Reach start t × IsStranded t × (t.chan.senders ≡ 0))
  unfolding start channel try_recv_inner register drop_sender
  start-strands h v w =
      let waits = next (next here (checks (channel aw) refl refl)) (registers w refl) in
      (
        start-lost h v w,
        (_, next waits (drops (omega arith) (inl refl)), (refl, refl, refl, inr refl), refl),
      )
