-- ===== src/TimerWheel/Entries.antt =====
-- The entries of a wheel and their doubly linked lists: the parts of `start_timer_unchecked` and
-- `stop_timer` that set the links.
use vpp_plugin_rs.Prelude.{ℕ, ◌-◌, ◌^◌, Option, none, some, if◌then◌else◌, ◌==◌}
use vpp_plugin_rs.Outcome.{Outcome, ok, panicked, ◌>>=◌}
use vpp_plugin_rs.TimerWheel.Slab.{Slab}

-- `EMPTY_INDEX`
abbrev pub empty_index : ℕ
empty_index = 2 ^ 32 - 1

pub data TimerEntryData (T : Type 0) : Type 0 where
  head : TimerEntryData T
  timer : ℕ → T → TimerEntryData T

pub record TimerEntry (T : Type 0) : Type 0 where
  pub next : ℕ
  pub previous : ℕ
  pub entry_data : TimerEntryData T

-- Indexing panics where there is no entry.
abbrev pub expect {ℓ} : {A : Type ℓ} → Option A → Outcome A
expect none = panicked
expect (some x) = ok x

module _ {T S : Type 0} (slab : Slab (TimerEntry T) S) where
  abbrev pub entry : S → ℕ → Outcome (TimerEntry T)
  entry s i = expect (slab.get s i)

  unfoldable pub set_next : S → ℕ → ℕ → Outcome S
  set_next s i n = do e ← entry s i; ok (slab.put s i (record e { next = n }))

  unfoldable pub set_previous : S → ℕ → ℕ → Outcome S
  set_previous s i n = do e ← entry s i; ok (slab.put s i (record e { previous = n }))

  -- The entry behind another one, if there is one, gets a new predecessor.
  abbrev pub set_previous_of : S → ℕ → ℕ → Outcome S
  set_previous_of s i n = if i == empty_index then ok s else set_previous s i n

  unfoldable pub set_links : S → ℕ → ℕ → ℕ → Outcome S
  set_links s i next previous = do s ← set_next s i next; set_previous s i previous

  -- Put `index` behind the head of a list.
  unfoldable pub link : S → ℕ → ℕ → Outcome S
  link s head_index index = do
    first ← entry s head_index
    s ← set_next s head_index index
    s ← set_links s index first.next head_index
    set_previous_of s first.next index

  -- Take an entry with these links out of its list.
  unfoldable pub unlink : S → TimerEntry T → Outcome S
  unlink s e = do s ← set_next s e.previous e.next; set_previous_of s e.next e.previous
