-- ===== src/ApiGen/Table.antt =====
-- The table of the types of parser.rs, and the variable length arrays that their fields end in.
use vpp_plugin_rs.ApiGen.Syntax.{
  TypeDetails, too_deep, ok, Result, ◌>>=◌, variable, CountDescriptor, TypeEntry, FieldSize, Field,
}
use vpp_plugin_rs.Prelude.{
  ◌&&◌, if◌then◌else◌, ℕ, zero, suc, Bool, true, false, Option, none, some, List, [], ◌∷◌,
}
use vpp_plugin_rs.ApiGen.Texts.{◌===◌, strip_suffix, strip_prefix}
use Prim.Native.String.{String}

abbrev pub vl_api_prefix : String
vl_api_prefix = "vl_api_"

abbrev pub vl_api_suffix : String
vl_api_suffix = "_t"

abbrev pub strip_suffix_of : Option String → Option String
strip_suffix_of none = none
strip_suffix_of (some s) = strip_suffix s vl_api_suffix

-- The name of the type that `vl_api_…_t` refers to.
unfoldable pub referred_type : String → Option String
referred_type type = strip_suffix_of (strip_prefix type vl_api_prefix)

abbrev pub find_field : String → List Field → Option Field
find_field name [] = none
find_field name (f ∷ fs) = if f.name === name then some f else find_field name fs

abbrev pub last_field : List Field → Option Field
last_field [] = none
last_field (f ∷ []) = some f
last_field (f ∷ g ∷ fs) = last_field (g ∷ fs)

abbrev pub count_field_of : Option FieldSize → List Field → Option Field
count_field_of (some (variable (some name))) fields = find_field name fields
count_field_of _ fields = none

abbrev pub is_unsized_array : Option FieldSize → Bool
is_unsized_array (some (variable none)) = true
is_unsized_array _ = false

abbrev pub prepend : String → Option CountDescriptor → Option CountDescriptor
prepend name none = none
prepend name (some (CountDescriptor.field path type)) =
    some (CountDescriptor.field (name ∷ path) type)
prepend name (some (CountDescriptor.string path)) = some (CountDescriptor.string (name ∷ path))

module _ {Hasher : Type 0} where
  abbrev pub lookup : String → List (String × TypeEntry Hasher) → Option (TypeEntry Hasher)
  lookup name [] = none
  lookup name ((key, entry) ∷ table) = if key === name then some entry else lookup name table

  abbrev pub lookup_opt :
      Option String → List (String × TypeEntry Hasher) → Option (TypeEntry Hasher)
  lookup_opt none table = none
  lookup_opt (some name) table = lookup name table

  abbrev pub entry_vla_opt :
      (TypeEntry Hasher → Result (Option CountDescriptor))
      → Option (TypeEntry Hasher)
      → Result (Option CountDescriptor)
  entry_vla_opt entry_vla none = ok none
  entry_vla_opt entry_vla (some entry) = entry_vla entry

  abbrev pub counted_vla :
      (TypeEntry Hasher → Result (Option CountDescriptor))
      → List (String × TypeEntry Hasher)
      → Field
      → Option Field
      → Result (Option CountDescriptor)
  counted_vla entry_vla table f (some count) =
      ok (some (CountDescriptor.field (count.name ∷ []) count.type))
  counted_vla entry_vla table f none = do
    d ← entry_vla_opt entry_vla (lookup_opt (referred_type f.type) table)
    ok (prepend f.name d)

  -- `Field::vla`, given `TypeEntry::vla`, which it calls.
  unfoldable pub field_vla_with :
      (TypeEntry Hasher → Result (Option CountDescriptor))
      → List (String × TypeEntry Hasher)
      → Field
      → List Field
      → Result (Option CountDescriptor)
  field_vla_with entry_vla table f other_fields =
      if is_unsized_array f.size && (f.type === "string")
      then ok (some (CountDescriptor.string (f.name ∷ [])))
      else counted_vla entry_vla table f (count_field_of f.size other_fields)

  abbrev pub last_vla_with :
      (TypeEntry Hasher → Result (Option CountDescriptor))
      → List (String × TypeEntry Hasher)
      → List Field
      → Option Field
      → Result (Option CountDescriptor)
  last_vla_with entry_vla table fields none = ok none
  last_vla_with entry_vla table fields (some f) = field_vla_with entry_vla table f fields

  -- `TypeDetails::vla`, given the same.
  unfoldable pub details_vla_with :
      (TypeEntry Hasher → Result (Option CountDescriptor))
      → List (String × TypeEntry Hasher)
      → TypeDetails
      → Result (Option CountDescriptor)
  details_vla_with entry_vla table (TypeDetails.typedef_block fields) =
      last_vla_with entry_vla table fields (last_field fields)
  details_vla_with entry_vla table (TypeDetails.typedef type size) = ok (
      if is_unsized_array size && (type === "string")
      then some (CountDescriptor.string [])
      else none)
  details_vla_with entry_vla table (TypeDetails.union fields) = ok none
  details_vla_with entry_vla table (TypeDetails.enum size variants) = ok none
  details_vla_with entry_vla table (TypeDetails.enum_flag size variants) = ok none

  -- `TypeEntry::vla`, on fuel: one unit for each type that is looked into.
  unfoldable pub entry_vla :
      ℕ → List (String × TypeEntry Hasher) → TypeEntry Hasher → Result (Option CountDescriptor)
  entry_vla zero table entry = too_deep
  entry_vla (suc fuel) table entry = details_vla_with (entry_vla fuel table) table entry.details

  unfoldable pub field_vla :
      ℕ → List (String × TypeEntry Hasher) → Field → List Field → Result (Option CountDescriptor)
  field_vla fuel table f other_fields = field_vla_with (entry_vla fuel table) table f other_fields
