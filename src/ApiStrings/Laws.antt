-- ===== src/ApiStrings/Laws.antt =====
-- What is copied into the strings of vlibapi/mod.rs is read from them.
use vpp_plugin_rs.Prelude.{
  ==_false→ne, ==→eq, drop_prefix, length-replicate, length-drop, length-take, le→ltb_false, ◌==◌,
  eq→==, Bool-cases, length-append, inl, inr, lt→ltb, le→leb, ne→==_false, take_prefix, ℕ, zero,
  suc, ◌+◌, ◌-◌, ◌<◌, ◌≤◌, ◌≡◌, refl, ap, sym, ◌∙◌, List, [], ◌∷◌, ◌++◌, length, take, drop,
  replicate, arith,
}
use vpp_plugin_rs.Outcome.{ok, panicked, ◌>>=◌}
use vpp_plugin_rs.ApiStrings.Fixed.{ApiFixedString, count_bytes, fill_from, default_string}
use vpp_plugin_rs.ApiStrings.Counted.{ApiString}
use vpp_plugin_rs.ApiStrings.Fixed
use vpp_plugin_rs.ApiStrings.Counted

-- No byte is the terminator.
unfoldable pub AllNonzero : List ℕ → Type 0
AllNonzero [] = Unit
AllNonzero (b ∷ bs) = (0 < b) × AllNonzero bs

count_bytes_lem :
    (bytes rest : List ℕ) (n : ℕ)
    → AllNonzero bytes
    → count_bytes (bytes ++ 0 ∷ rest) n ≡ ok (n + length bytes)
unfolding count_bytes AllNonzero
count_bytes_lem [] rest n h = ap ok (omega arith)
count_bytes_lem (b ∷ bs) rest n (h, t) =
    rw (ne→==_false b 0 (λ e. omega arith), count_bytes_lem bs rest (n + 1) t) (ap ok (omega arith))

count_bytes-panicked : (bytes : List ℕ) (n : ℕ) → AllNonzero bytes → count_bytes bytes n ≡ panicked
unfolding count_bytes AllNonzero
count_bytes-panicked [] n h = refl
count_bytes-panicked (b ∷ bs) n (h, t) =
    rw (ne→==_false b 0 (λ e. omega arith), count_bytes-panicked bs (n + 1) t)

as_bytes_lem :
    (bytes rest : List ℕ)
    → AllNonzero bytes
    → Fixed.as_bytes (record { buf = bytes ++ 0 ∷ rest }) ≡ ok bytes
unfolding Fixed.as_bytes Fixed.len
as_bytes_lem bytes rest h =
    rw (count_bytes_lem bytes rest 0 h)
      (ap ok (take_prefix (0 + length bytes) bytes (0 ∷ rest) (omega arith)))

-- A text that leaves two bytes or more is followed by zeros alone.
pub copy_from_str-short :
    (s : ApiFixedString) (bytes : List ℕ)
    → length bytes + 1 < length s.buf
    → Fixed.copy_from_str s bytes
      ≡ ok (record { buf = bytes ++ replicate (length s.buf - length bytes) 0 })
unfolding Fixed.copy_from_str
copy_from_str-short s bytes h =
    rw
      (
        le→leb (length bytes) (length s.buf) (omega arith),
        lt→ltb (length bytes + 1) (length s.buf) h,
        take_prefix (length bytes) bytes (drop (length bytes) s.buf) refl,
      )
      (ap (λ n. ok (record { buf = bytes ++ replicate n 0 }))
        (omega (
          arith,
          length-append bytes (drop (length bytes) s.buf),
          length-drop (length bytes) s.buf,
        )))

replicate-pos : (n : ℕ) → 0 < n → replicate {A = ℕ} n 0 ≡ 0 ∷ replicate (n - 1) 0
replicate-pos zero h = absurd (omega arith)
replicate-pos (suc n) h = ap (λ k. 0 ∷ replicate k 0) (omega arith)

-- Whatever an ApiFixedString held, as_bytes reads back the text that copy_from_str has put there,
-- if no byte of it is zero and at least two bytes of the buffer are left.
pub copy_from_str-as_bytes :
    (s : ApiFixedString) (bytes : List ℕ)
    → AllNonzero bytes
    → length bytes + 1 < length s.buf
    → (Fixed.copy_from_str s bytes >>= Fixed.as_bytes) ≡ ok bytes
copy_from_str-as_bytes s bytes h short =
    rw
      (copy_from_str-short s bytes short, replicate-pos (length s.buf - length bytes) (omega arith))
      (as_bytes_lem bytes _ h)

copy_from_str-full :
    (front bytes : List ℕ) (last : ℕ)
    → length front ≡ length bytes
    → Fixed.copy_from_str (record { buf = front ++ last ∷ [] }) bytes
      ≡ ok (record { buf = bytes ++ last ∷ [] })
unfolding Fixed.copy_from_str
copy_from_str-full front bytes last e = rw (
  le→leb (length bytes) (length (front ++ last ∷ []))
      (omega (arith, e, length-append front (last ∷ []))),
  le→ltb_false (length bytes + 1) (length (front ++ last ∷ []))
      (omega (arith, e, length-append front (last ∷ []))),
  drop_prefix (length bytes) front (last ∷ []) (sym e),
)

AllNonzero-snoc : (bytes : List ℕ) (b : ℕ) → AllNonzero bytes → 0 < b → AllNonzero (bytes ++ b ∷ [])
unfolding AllNonzero
AllNonzero-snoc [] b h pos = (pos, tt)
AllNonzero-snoc (c ∷ bytes) b (h, t) pos = (h, AllNonzero-snoc bytes b t pos)

-- Over a buffer whose last byte is not zero, copy_from_str of a text one byte shorter than the
-- buffer, no byte of which is zero, leaves no terminator: as_bytes then panics.
pub copy_from_str-stale :
    (front bytes : List ℕ) (last : ℕ)
    → length front ≡ length bytes
    → AllNonzero bytes
    → 0 < last
    → (Fixed.copy_from_str (record { buf = front ++ last ∷ [] }) bytes >>= Fixed.as_bytes)
      ≡ panicked
unfolding Fixed.as_bytes Fixed.len
copy_from_str-stale front bytes last e h pos = rw (
  copy_from_str-full front bytes last e,
  count_bytes-panicked (bytes ++ last ∷ []) 0 (AllNonzero-snoc bytes last h pos),
)

replicate-snoc : (n : ℕ) → replicate {A = ℕ} (suc n) 0 ≡ replicate n 0 ++ 0 ∷ []
replicate-snoc zero = refl
replicate-snoc (suc n) = ap (λ r. 0 ∷ r) (replicate-snoc n)

-- as_bytes reads back from a default ApiFixedString of N bytes the text that copy_from_str has put
-- there, if no byte of it is zero and it is shorter than N.
pub copy_from_str-default :
    (n : ℕ) (bytes : List ℕ)
    → AllNonzero bytes
    → length bytes < n
    → (Fixed.copy_from_str (default_string n) bytes >>= Fixed.as_bytes) ≡ ok bytes
unfolding default_string
copy_from_str-default zero bytes h fits = absurd (omega arith)
copy_from_str-default (suc n) bytes h fits = elim (Bool-cases (length bytes == n)) [
  | inl full ↦
      rw
        (
          replicate-snoc n,
          copy_from_str-full (replicate n 0) bytes 0
              (length-replicate {A = ℕ} n 0 ∙ sym (==→eq _ _ full)),
        )
        (as_bytes_lem bytes [] h)
  | inr short ↦
      copy_from_str-as_bytes (record { buf = replicate (suc n) 0 }) bytes h
        (omega (arith, length-replicate {A = ℕ} (suc n) 0, ==_false→ne (length bytes) n short))
]

-- as_bytes reads back from an ApiString the text that copy_from_str has put there, if its length
-- field is the length of the text and lies inside its memory.
pub ApiString-copy_from_str :
    (s : ApiString) (bytes : List ℕ)
    → s.length_field ≡ length bytes
    → length bytes ≤ length s.memory
    → (Counted.copy_from_str s bytes >>= Counted.as_bytes) ≡ ok bytes
unfolding Counted.copy_from_str Counted.as_bytes
ApiString-copy_from_str s bytes e room =
    rw
      (
        le→leb s.length_field (length s.memory) (omega arith),
        eq→== (length (take s.length_field s.memory)) (length bytes)
            (omega (arith, e, room, length-take s.length_field s.memory)),
        le→leb s.length_field (length (bytes ++ drop (length bytes) s.memory))
            (omega (arith, e, room, length-append bytes (drop (length bytes) s.memory))),
      )
      (ap ok (take_prefix s.length_field bytes _ e))
