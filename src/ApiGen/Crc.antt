-- ===== src/ApiGen/Crc.antt =====
-- The texts over which parser.rs computes checksums, and the numbering of enum variants.
use vpp_plugin_rs.ApiGen.Texts.{◌===◌, ◌^^◌, join, show_u32}
use vpp_plugin_rs.ApiGen.Syntax.{
  ◌>>=◌, panicked, variable, ok, EnumVariant, fixed, Result, Statement, FieldSize, OptionStatement,
  Field, EnumStatement,
}
use vpp_plugin_rs.Outcome.{u32_mod}
use vpp_plugin_rs.Prelude.{
  ltb, if◌then◌else◌, ℕ, ◌+◌, Bool, false, ◌||◌, Option, none, some, List, [], ◌∷◌, map,
}
use Prim.Native.String.{String}

-- `crc32fast::Hasher`, and `finalize` with it.
pub record Crc (Hasher : Type 0) : Type 0 where
  pub new : Hasher
  pub update : Hasher → String → Hasher
  pub combine : Hasher → Hasher → Hasher
  pub finalize : Hasher → ℕ

unfoldable pub length_of : FieldSize → String
length_of (fixed length) = show_u32 length
length_of (variable v) = "0"

unfoldable pub lengthfield_of : FieldSize → String
lengthfield_of (fixed length) = "None"
lengthfield_of (variable none) = "None"
lengthfield_of (variable (some lengthfield)) = "'" ^^ lengthfield ^^ "'"

unfoldable pub size_data : Option FieldSize → String
size_data none = ""
size_data (some size) = ", " ^^ length_of size ^^ ", " ^^ lengthfield_of size

unfoldable pub crc_data : Field → String
crc_data f = "['" ^^ f.type ^^ "', '" ^^ f.name ^^ "'" ^^ size_data f.size ^^ "]"

unfoldable pub crc_data_for_fields : List Field → String
crc_data_for_fields fields = "[" ^^ join (map crc_data fields) ^^ "]"

-- The value of a variant: its own, or the one after the last.
abbrev pub variant_value : Option ℕ → ℕ → ℕ
variant_value none next_value = next_value
variant_value (some value) next_value = value

abbrev pub is_backwards_compatible : List OptionStatement → Bool
is_backwards_compatible [] = false
is_backwards_compatible (o ∷ os) = o.option === "backwards_compatible" || is_backwards_compatible os

-- `value + 1` is on u32.
abbrev pub next_u32 : Bool → ℕ → Result ℕ
next_u32 checks value =
    if ltb (value + 1) u32_mod then ok (value + 1) else if checks then panicked else ok 0

module _ (checks : Bool) where
  unfoldable pub enum_data : List EnumStatement → ℕ → Result (List String)
  enum_data [] next_value = ok []
  enum_data (s ∷ ss) next_value = do
    let value = variant_value s.value next_value
    next ← next_u32 checks value
    rest ← enum_data ss next
    let data_of = "['" ^^ s.id ^^ "', " ^^ show_u32 value ^^ "]"
    ok (if is_backwards_compatible s.options then rest else data_of ∷ rest)

  unfoldable pub crc_data_for_enum_block_statements : List EnumStatement → Result String
  crc_data_for_enum_block_statements ss = do parts ← enum_data ss 0; ok ("[" ^^ join parts ^^ "]")

  unfoldable pub number_variants : List EnumStatement → ℕ → Result (List EnumVariant)
  number_variants [] next_value = ok []
  number_variants (s ∷ ss) next_value = do
    let value = variant_value s.value next_value
    next ← next_u32 checks value
    rest ← number_variants ss next
    ok (record { id = s.id; value = value } ∷ rest)

  unfoldable pub enum_variants_from_block_statements :
      List EnumStatement → Result (List EnumVariant)
  enum_variants_from_block_statements ss = number_variants ss 0

  unfoldable pub statement_crc_data : Statement → Result (Option String)
  statement_crc_data (Statement.define name options fields flags comment) =
      ok (some (crc_data_for_fields fields))
  statement_crc_data (Statement.option o) = ok (some o.option)
  statement_crc_data (Statement.typedef_block name options fields flags) =
      ok (some (crc_data_for_fields fields))
  statement_crc_data (Statement.typedef field flags) = ok (some "[]")
  statement_crc_data (Statement.union name options fields comment) =
      ok (some (crc_data_for_fields fields))
  statement_crc_data (Statement.enum name size block) = do
    text ← crc_data_for_enum_block_statements block
    ok (some text)
  statement_crc_data (Statement.enum_flag name size block) = do
    text ← crc_data_for_enum_block_statements block
    ok (some text)
  statement_crc_data (Statement.import file) = ok none
  statement_crc_data (Statement.service services) = ok none
