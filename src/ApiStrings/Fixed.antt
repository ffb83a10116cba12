-- ===== src/ApiStrings/Fixed.antt =====
-- `ApiFixedString<N>`: its buffer is a list of N bytes.
use vpp_plugin_rs.Prelude.{
  ℕ, ◌+◌, ◌-◌, Bool, List, [], ◌∷◌, ◌++◌, leb, ltb, ◌==◌, if◌then◌else◌, length, take, drop,
  replicate,
}
use vpp_plugin_rs.Outcome.{Outcome, ok, panicked, ◌>>=◌}

pub record ApiFixedString : Type 0 where
  pub buf : List ℕ

-- The loop over `buf[len]`, which panics past the end.
unfoldable pub count_bytes : List ℕ → ℕ → Outcome ℕ
count_bytes [] n = panicked
count_bytes (b ∷ bs) n = if b == 0 then ok n else count_bytes bs (n + 1)

unfoldable pub len : ApiFixedString → Outcome ℕ
len s = count_bytes s.buf 0

unfoldable pub is_empty : ApiFixedString → Outcome Bool
is_empty s = do n ← len s; ok (n == 0)

unfoldable pub as_bytes : ApiFixedString → Outcome (List ℕ)
as_bytes s = do n ← len s; ok (take n s.buf)

-- `buf[n..].fill(0)`
abbrev pub fill_from : ℕ → List ℕ → List ℕ
fill_from n buf = take n buf ++ replicate (length buf - n) 0

unfoldable pub copy_from_str : ApiFixedString → List ℕ → Outcome ApiFixedString
copy_from_str s bytes =
    if leb (length bytes) (length s.buf)
    then (let buf = bytes ++ drop (length bytes) s.buf in
        ok (record {
          buf = if ltb (length bytes + 1) (length s.buf) then fill_from (length bytes) buf else buf;
        }))
    else panicked

unfoldable pub default_string : ℕ → ApiFixedString
default_string n = record { buf = replicate n 0 }

unfoldable pub endian_swap : ApiFixedString → Bool → ApiFixedString
endian_swap s to_net = s
