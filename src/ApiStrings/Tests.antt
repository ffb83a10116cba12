-- ===== src/ApiStrings/Tests.antt =====
-- The theorems on API strings at small buffers.
use vpp_plugin_rs.ApiStrings.Laws.{AllNonzero, copy_from_str-as_bytes, copy_from_str-stale}
use vpp_plugin_rs.ApiStrings.Fixed.{default_string, ApiFixedString}
use vpp_plugin_rs.Prelude.{ℕ, ◌≡◌, refl, List, [], ◌∷◌, ◌++◌, arith}
use vpp_plugin_rs.Outcome.{ok, panicked, ◌>>=◌}
use vpp_plugin_rs.ApiStrings.Fixed

abbrev used : ApiFixedString
used = record { buf = 7 ∷ 8 ∷ 9 ∷ 10 ∷ 11 ∷ [] }

abbrev hi : List ℕ
hi = 104 ∷ 105 ∷ []

abbrev four : List ℕ
four = 97 ∷ 98 ∷ 99 ∷ 100 ∷ []

copy_from_str-as_bytes_example : (Fixed.copy_from_str used hi >>= Fixed.as_bytes) ≡ ok hi
copy_from_str-as_bytes_example =
    copy_from_str-as_bytes used hi (unfold AllNonzero in ground arith) (omega arith)

copy_from_str-stale_example :
    (Fixed.copy_from_str (record { buf = (7 ∷ 8 ∷ 9 ∷ 10 ∷ []) ++ 11 ∷ [] }) four
      >>= Fixed.as_bytes)
    ≡ panicked
copy_from_str-stale_example =
    copy_from_str-stale (7 ∷ 8 ∷ 9 ∷ 10 ∷ []) four 11 refl (unfold AllNonzero in ground arith)
      (omega arith)
