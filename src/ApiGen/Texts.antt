-- ===== src/ApiGen/Texts.antt =====
-- The operations of `str` that parser.rs uses, and the results of its functions.
use vpp_plugin_rs.Prelude.{
  ◌+◌, ℕ, zero, suc, ◌-◌, ◌/◌, ◌%◌, Bool, true, false, ◌||◌, Option, none, some, List, [], ◌∷◌, leb,
  ltb, if◌then◌else◌,
}
use Prim.Native.String.{String, len}
use Prim.Native.String as Str
use text.Mathlib.Text as Text

infix 50 ◌===◌
abbrev pub ◌===◌ : String → String → Bool
s === t = Text.◌==◌ s t

infixr 65 ◌^^◌
abbrev pub ◌^^◌ : String → String → String
s ^^ t = Str.◌++◌ s t

abbrev pub some_if : Bool → Option String → Option String
some_if true o = o
some_if false o = none

abbrev pub is_none {ℓ} : {A : Type ℓ} → Option A → Bool
is_none none = true
is_none (some a) = false

abbrev pub is_text : Option String → String → Bool
is_text none t = false
is_text (some s) t = s === t

unfoldable pub strip_prefix : String → String → Option String
strip_prefix s p = some_if (is_text (Text.get? s 0 (len p)) p) (Text.get? s (len p) (len s))

unfoldable pub strip_suffix : String → String → Option String
strip_suffix s p =
    let cut = len s - len p in
    some_if (leb (len p) (len s))
      (some_if (is_text (Text.get? s cut (len s)) p) (Text.get? s 0 cut))

-- `join(", ")`
unfoldable pub join : List String → String
join [] = ""
join (s ∷ []) = s
join (s ∷ t ∷ ts) = s ^^ ", " ^^ join (t ∷ ts)

abbrev pub digit : ℕ → String
digit n = Str.slice "0123456789" n (n + 1)

-- A u32 in decimal: at most ten digits.
unfoldable pub decimal : ℕ → ℕ → String
decimal zero n = ""
decimal (suc fuel) n =
    let front = decimal fuel (n / 10) in if ltb n 10 then digit n else front ^^ digit (n % 10)

unfoldable pub show_u32 : ℕ → String
show_u32 n = decimal 10 n

abbrev pub contains : List String → String → Bool
contains [] s = false
contains (t ∷ ts) s = t === s || contains ts s
