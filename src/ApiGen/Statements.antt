-- ===== src/ApiGen/Statements.antt =====
-- `ApiParser::new` of parser.rs: the imports, and what each statement adds to the parser.
use vpp_plugin_rs.ApiGen.Syntax.{
  Flag, Enum, Union, Alias, BlockType, vla_field_not_last, vla_field_union, TypeDetails,
  string_not_array, type_redefinition, type_resolution, array_variable_not_found, err, ok, Message,
  TypeEntry, Result, Statement, variable, Error, ApiParser, Field, FieldSize, ◌>>=◌,
}
use vpp_plugin_rs.ApiGen.Crc.{
  enum_variants_from_block_statements, crc_data_for_enum_block_statements, statement_crc_data,
  crc_data_for_fields, Crc,
}
use vpp_plugin_rs.Prelude.{
  ◌==◌, ◌&&◌, if◌then◌else◌, ℕ, suc, ◌+◌, ◌-◌, Bool, true, false, not, Option, none, some, List, [],
  ◌∷◌, ◌++◌, length,
}
use vpp_plugin_rs.ApiGen.Table.{field_vla, lookup, find_field, referred_type}
use vpp_plugin_rs.ApiGen.Messages.{generated_reply, new_message}
use vpp_plugin_rs.ApiGen.Texts.{is_none, ◌===◌}
use Prim.Native.String.{String}

abbrev pub length_var : Option FieldSize → Option String
length_var (some (variable v)) = v
length_var _ = none

abbrev pub refuse_missing : Field → List Field → Option String → Result (Unit {0})
refuse_missing f fields none = ok tt
refuse_missing f fields (some v) =
    if is_none (find_field v fields) then err (array_variable_not_found f.name v) else ok tt

abbrev pub ensure : Bool → Error → Result (Unit {0})
ensure true e = ok tt
ensure false e = err e

abbrev pub is_some {ℓ} : {A : Type ℓ} → Option A → Bool
is_some o = not (is_none o)

-- What `process_statements` registers for a statement.
abbrev pub Registered : Type 0 → Type 0
Registered Hasher = ApiParser Hasher × Option (String × TypeEntry Hasher)

module _ {Hasher : Type 0} (checks : Bool) (c : Crc Hasher) where
  abbrev pub vla_depth : ApiParser Hasher → ℕ
  vla_depth p = suc (length p.global_types_by_name)

  -- The loop of `validate_vla` from the field at `i` on, `vla` being that of the field before.
  unfoldable pub validate_fields :
      ApiParser Hasher → String → List Field → Bool → ℕ → List Field → Bool → Result Bool
  validate_fields p name fields is_union i [] vla = ok vla
  validate_fields p name fields is_union i (f ∷ rest) vla = do
    checked ← ensure (not ((f.type === "string") && is_none f.size)) (string_not_array f.name)
    d ← field_vla (vla_depth p) p.global_types_by_name f fields
    in_union ← ensure (not (is_some d && is_union)) (vla_field_union f.name name)
    in_middle ←
        ensure (not (is_some d && not (i == length fields - 1))) (vla_field_not_last f.name name)
    counted ← refuse_missing f fields (length_var f.size)
    validate_fields p name fields is_union (i + 1) rest (is_some d)

  unfoldable pub validate_vla : ApiParser Hasher → String → List Field → Bool → Result Bool
  validate_vla p name fields is_union = validate_fields p name fields is_union 0 fields false

  abbrev pub combine_entry : Hasher → String → Option (TypeEntry Hasher) → Result Hasher
  combine_entry h type_name none = err (type_resolution type_name)
  combine_entry h type_name (some entry) = ok (c.combine h entry.crc)

  abbrev pub combine_type : ApiParser Hasher → Hasher → Option String → Result Hasher
  combine_type p h none = ok h
  combine_type p h (some type_name) =
      combine_entry h type_name (lookup type_name p.global_types_by_name)

  unfoldable pub combine_fields : ApiParser Hasher → Hasher → List Field → Result Hasher
  combine_fields p h [] = ok h
  combine_fields p h (f ∷ fields) = do
    h' ← combine_type p h (referred_type f.type)
    combine_fields p h' fields

  unfoldable pub crc_for_fields : ApiParser Hasher → List Field → Result Hasher
  crc_for_fields p fields = combine_fields p (c.update c.new (crc_data_for_fields fields)) fields

  abbrev pub push_opt : List Message → Option Message → List Message
  push_opt ms none = ms
  push_opt ms (some m) = ms ++ m ∷ []

  abbrev pub process_typedef :
      ApiParser Hasher
      → Option String
      → Field
      → List Flag
      → Option String
      → Result (Registered Hasher)
  process_typedef p import field flags (some v) = err (array_variable_not_found field.name v)
  process_typedef p import field flags none = do
    let entry : TypeEntry Hasher = record {
      crc = c.update c.new "[]";
      details = TypeDetails.typedef field.type field.size;
      import_filename = import;
    }
    let alias : Alias = record { field = field; flags = flags }
    ok (
      if is_some import then p else record p { aliases = p.aliases ++ alias ∷ [] },
      some (field.name, entry),
    )

  -- One `match` of `process_statements`; `import` is the file that is imported, if one is.
  unfoldable pub process_statement :
      ApiParser Hasher → Option String → Statement → Result (Registered Hasher)
  process_statement p import (Statement.define name options fields flags comment) = do
    vla ← validate_vla p name fields false
    if is_some import then ok (p, none) else do
      crc ← crc_for_fields p fields
      let define = new_message name options fields flags (c.finalize crc) comment
      ok (
        record p { messages = push_opt (p.messages ++ define ∷ []) (generated_reply c define) },
        none,
      )
  process_statement p import (Statement.typedef_block name options fields flags) = do
    vla ← validate_vla p name fields false
    crc ← crc_for_fields p fields
    let entry : TypeEntry Hasher = record {
      crc = crc;
      details = TypeDetails.typedef_block fields;
      import_filename = import;
    }
    let un : BlockType = record { name = name; fields = fields; options = options; flags = flags }
    ok (if is_some import then p else record p { types = p.types ++ un ∷ [] }, some (name, entry))
  process_statement p import (Statement.typedef field flags) =
      process_typedef p import field flags (length_var field.size)
  process_statement p import (Statement.union name options fields comment) = do
    vla ← validate_vla p name fields true
    crc ← crc_for_fields p fields
    let entry : TypeEntry Hasher = record {
      crc = crc;
      details = TypeDetails.union fields;
      import_filename = import;
    }
    let un : Union = record { name = name; fields = fields; options = options; comment = comment }
    ok (if is_some import then p else record p { unions = p.unions ++ un ∷ [] }, some (name, entry))
  process_statement p import (Statement.enum name size block) = do
    text ← crc_data_for_enum_block_statements checks block
    variants ← enum_variants_from_block_statements checks block
    let entry : TypeEntry Hasher = record {
      crc = c.update c.new text;
      details = TypeDetails.enum size variants;
      import_filename = import;
    }
    let en : Enum = record { name = name; size = size; variants = variants }
    ok (if is_some import then p else record p { enums = p.enums ++ en ∷ [] }, some (name, entry))
  process_statement p import (Statement.enum_flag name size block) = do
    text ← crc_data_for_enum_block_statements checks block
    variants ← enum_variants_from_block_statements checks block
    let entry : TypeEntry Hasher = record {
      crc = c.update c.new text;
      details = TypeDetails.enum_flag size variants;
      import_filename = import;
    }
    let en : Enum = record { name = name; size = size; variants = variants }
    ok (
      if is_some import then p else record p { enumflags = p.enumflags ++ en ∷ [] },
      some (name, entry),
    )
  process_statement p import (Statement.import file) =
      ok (if is_some import then p else record p { imports = p.imports ++ file ∷ [] }, none)
  process_statement p import (Statement.option o) =
      ok (if is_some import then p else record p { options = p.options ++ o ∷ [] }, none)
  process_statement p import (Statement.service services) =
      ok (if is_some import then p else record p { services = p.services ++ services }, none)

  -- The insertion into the table, which refuses a name that is there.
  abbrev pub register :
      ApiParser Hasher → Option (String × TypeEntry Hasher) → Result (ApiParser Hasher)
  register p none = ok p
  register p (some (name, entry)) =
      if is_some (lookup name p.global_types_by_name)
      then err (type_redefinition name)
      else ok (record p { global_types_by_name = p.global_types_by_name ++ (name, entry) ∷ [] })

  abbrev pub update_opt : Hasher → Option String → Hasher
  update_opt h none = h
  update_opt h (some text) = c.update h text

  unfoldable pub process_all :
      ApiParser Hasher
      → Hasher
      → Option String
      → List Statement
      → Result (ApiParser Hasher × Hasher)
  process_all p h import [] = ok (p, h)
  process_all p h import (s ∷ ss) = do
    text ← statement_crc_data checks s
    (p', entry) ← process_statement p import s
    p'' ← register p' entry
    process_all p'' (update_opt h text) import ss

  -- The parser, and the checksum of the file.
  unfoldable pub process_statements :
      ApiParser Hasher → List Statement → Option String → Result (ApiParser Hasher × ℕ)
  process_statements p statements import = do
    (p', h) ← process_all p c.new import statements
    ok (p', c.finalize h)
