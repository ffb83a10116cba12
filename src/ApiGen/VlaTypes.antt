-- ===== src/ApiGen/VlaTypes.antt =====
-- The fields of parser.rs that have a variable length, apart from what `Field::vla` says of them.
use vpp_plugin_rs.Prelude.{
  zero, suc, inr, inl, Bool-cases, true, some, Option, ◌&&◌, none, ℕ, ◌≡◌, refl, ap, ◌∙◌, List,
}
use vpp_plugin_rs.ApiGen.Table.{
  count_field_of, is_unsized_array, last_field, counted_vla, find_field, lookup, details_vla_with,
  prepend, entry_vla, field_vla_with, referred_type, field_vla,
}
use vpp_plugin_rs.ApiGen.Syntax.{TypeDetails, variable, CountDescriptor, ok, Field, TypeEntry}
use vpp_plugin_rs.ApiGen.Texts.{◌===◌}
use vpp_plugin_rs.ApiGen.ServiceLaws.{unbind}
use Prim.Native.String.{String}

-- A field has a variable length: a string without size, an array whose count is one of the other
-- fields, or a field of a type that ends in such a field or is another name for such a string.
pub data HasVla {Hasher : Type 0} (table : List (String × TypeEntry Hasher))
    : Field → List Field → Type 0 where
  text :
      (f : Field) (others : List Field)
      → f.size ≡ some (variable none)
      → (f.type === "string") ≡ true
      → HasVla table f others
  counted :
      (f : Field) (others : List Field) (count_name : String) (count : Field)
      → f.size ≡ some (variable (some count_name))
      → find_field count_name others ≡ some count
      → HasVla table f others
  block :
      (f g : Field) (others fields : List Field) (name : String) (entry : TypeEntry Hasher)
      → referred_type f.type ≡ some name
      → lookup name table ≡ some entry
      → entry.details ≡ TypeDetails.typedef_block fields
      → last_field fields ≡ some g
      → HasVla table g fields
      → HasVla table f others
  alias :
      (f : Field) (others : List Field) (name type : String) (entry : TypeEntry Hasher)
      → referred_type f.type ≡ some name
      → lookup name table ≡ some entry
      → entry.details ≡ TypeDetails.typedef type (some (variable none))
      → (type === "string") ≡ true
      → HasVla table f others

module _ {Hasher : Type 0} (table : List (String × TypeEntry Hasher)) where
  prepend-none : (name : String) (d : Option CountDescriptor) → prepend name d ≡ none → d ≡ none
  prepend-none name none e = refl
  prepend-none name (some (CountDescriptor.field path type)) e = cc
  prepend-none name (some (CountDescriptor.string path)) e = cc

  counted_vla-entry :
      (depth : ℕ) (f : Field) (name : String) (entry : TypeEntry Hasher) (count : Option Field)
      → referred_type f.type ≡ some name
      → lookup name table ≡ some entry
      → counted_vla (entry_vla depth table) table f count ≡ ok none
      → entry_vla depth table entry ≡ ok none
  counted_vla-entry depth f name entry (some c) refers found e = cc
  counted_vla-entry depth f name entry none refers found e =
      let (d, e₁, inner) = unbind _ (entry_vla depth table entry) (rw (refers, found) at e) in
      inner ∙ ap ok (prepend-none f.name d (cc))

  field_vla-entry :
      (depth : ℕ) (f : Field) (others : List Field) (name : String) (entry : TypeEntry Hasher)
      → referred_type f.type ≡ some name
      → lookup name table ≡ some entry
      → field_vla depth table f others ≡ ok none
      → entry_vla depth table entry ≡ ok none
  unfolding field_vla field_vla_with
  field_vla-entry depth f others name entry refers found e =
      elim (Bool-cases (is_unsized_array f.size && (f.type === "string"))) [
        | inl is_text ↦ cc (rw is_text at e)
        | inr other ↦
            counted_vla-entry depth f name entry (count_field_of f.size others) refers found
              (rw other at e)
      ]

  block-none :
      (depth : ℕ) (entry : TypeEntry Hasher) (g : Field) (fields : List Field)
      → entry.details ≡ TypeDetails.typedef_block fields
      → last_field fields ≡ some g
      → ((depth : ℕ) → ¬ (field_vla depth table g fields ≡ ok none))
      → ¬ (entry_vla depth table entry ≡ ok none)
  unfolding entry_vla details_vla_with field_vla
  block-none zero entry g fields is_block ends inner e = cc
  block-none (suc depth) entry g fields is_block ends inner e =
      inner depth (rw (is_block, ends) at e)

  alias-none :
      (depth : ℕ) (entry : TypeEntry Hasher) (type : String)
      → entry.details ≡ TypeDetails.typedef type (some (variable none))
      → (type === "string") ≡ true
      → ¬ (entry_vla depth table entry ≡ ok none)
  unfolding entry_vla details_vla_with
  alias-none zero entry type is_alias is_string e = cc
  alias-none (suc depth) entry type is_alias is_string e = cc (rw (is_alias, is_string) at e)

  pub HasVla-field_vla :
      {f : Field} {others : List Field}
      → HasVla table f others
      → (depth : ℕ) → ¬ (field_vla depth table f others ≡ ok none)
  unfolding field_vla field_vla_with
  HasVla-field_vla (text f others unsized is_string) depth e = cc (rw (unsized, is_string) at e)
  HasVla-field_vla (counted f others n c sized found) depth e = cc (rw (sized, found) at e)
  HasVla-field_vla (block f g others fields name entry refers found is_block ends inner) depth e =
      block-none depth entry g fields is_block ends (HasVla-field_vla inner)
        (field_vla-entry depth f others name entry refers found e)
  HasVla-field_vla (alias f others name type entry refers found is_alias is_string) depth e =
      alias-none depth entry type is_alias is_string
        (field_vla-entry depth f others name entry refers found e)
