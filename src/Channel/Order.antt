-- ===== src/Channel/Order.antt =====
-- Calls on both sides of the channel of mpsc.rs, in any order, with what goes in and comes out.
use vpp_plugin_rs.Prelude.{
  refl, ◌∙◌, append-nil, sym, ◌≡◌, ap, Option, none, some, List, [], ◌∷◌, ◌++◌, append_assoc, ◌⊎◌,
  inl, inr, arith,
}
use vpp_plugin_rs.Channel.{
  drop_receiver, AtomicWaker, Channel, Poll, ready, pending, push, wake, send, clone_sender,
  drop_sender, try_recv_inner, try_recv, register, poll_recv,
}

-- A call on a sender or on the receiver.
pub data Call (T W : Type 0) : Type 0 where
  sends : T → Call T W
  clones : Call T W
  drops : Call T W
  tries : Call T W
  polls : W → Call T W

-- What the sends were given, what came out, and the channel after it.
pub record Trace (T A : Type 0) : Type 0 where
  pub sent : List T
  pub got : List T
  pub chan : Channel T A

module _ {T W A : Type 0} (aw : AtomicWaker W A) where
  abbrev sends_trace : T → T ⊎ (Option W × Channel T A) → Channel T A → Trace T A
  sends_trace v (inl value) c = record { sent = []; got = []; chan = c }
  sends_trace v (inr (waker, c')) c = record { sent = v ∷ []; got = []; chan = c' }

  abbrev got_trace : Option T × Channel T A → Trace T A
  got_trace (none, c) = record { sent = []; got = []; chan = c }
  got_trace (some v, c) = record { sent = []; got = v ∷ []; chan = c }

  abbrev polls_trace : Poll (Option T) × Channel T A → Trace T A
  polls_trace (pending, c) = record { sent = []; got = []; chan = c }
  polls_trace (ready v, c) = got_trace (v, c)

  unfoldable pub call : Call T W → Channel T A → Trace T A
  call (sends v) c = sends_trace v (send aw c v) c
  call clones c = record { sent = []; got = []; chan = clone_sender aw c }
  call drops c = record { sent = []; got = []; chan = drop_sender aw c }
  call tries c = got_trace (try_recv aw c)
  call (polls w) c = polls_trace (poll_recv aw c w)

  abbrev and_then : Trace T A → Trace T A → Trace T A
  and_then a b = record { sent = a.sent ++ b.sent; got = a.got ++ b.got; chan = b.chan }

  unfoldable pub calls : List (Call T W) → Channel T A → Trace T A
  calls [] c = record { sent = []; got = []; chan = c }
  calls (k ∷ ks) c = let t = call k c in and_then t (calls ks t.chan)

  call-queue :
      (k : Call T W) (c : Channel T A)
      → (call k c).got ++ (call k c).chan.queue ≡ c.queue ++ (call k c).sent
  unfolding call send push wake clone_sender drop_sender try_recv try_recv_inner poll_recv register
  call-queue (sends v) c = ground (arith, append-nil c.queue)
  call-queue clones c = sym (append-nil c.queue)
  call-queue drops c = sym (append-nil c.queue)
  call-queue tries c = ground (arith, append-nil c.queue)
  call-queue (polls w) c = ground (arith, append-nil c.queue)

  -- However sends, clones, drops of senders, tries and polls are mixed on a channel, what came out
  -- followed by what is still queued is what was queued at first followed by what the sends put
  -- in: nothing is lost, doubled or moved.
  pub calls-queue :
      (ks : List (Call T W)) (c : Channel T A)
      → (calls ks c).got ++ (calls ks c).chan.queue ≡ c.queue ++ (calls ks c).sent
  unfolding calls
  calls-queue [] c = sym (append-nil c.queue)
  calls-queue (k ∷ ks) c =
      let t = call k c in
      let u = calls ks t.chan in
      append_assoc t.got u.got u.chan.queue
      ∙ ap (λ q. t.got ++ q) (calls-queue ks t.chan)
      ∙ sym (append_assoc t.got t.chan.queue u.sent)
      ∙ ap (λ q. q ++ u.sent) (call-queue k c)
      ∙ append_assoc c.queue t.sent u.sent

  -- A send to a receiver that is gone gives the value back.
  send-drop_receiver : (c : Channel T A) (v : T) → send aw (drop_receiver aw c) v ≡ inl v
  unfolding send push drop_receiver
  send-drop_receiver c v = refl
