-- ===== src/ApiGen/Syntax.antt =====
-- The statements of an API file and what the parser of parser.rs collects from them.
use Prim.Native.String.{String}
use vpp_plugin_rs.Prelude.{ℕ, Bool, Option, List, [], ◌∷◌}

pub record OptionStatement : Type 0 where
  pub option : String
  pub value : Option String

pub data FieldSize : Type 0 where
  variable : Option String → FieldSize
  fixed : ℕ → FieldSize

-- `type` is the field `r#type`.
pub record Field : Type 0 where
  pub type : String
  pub name : String
  pub options : List OptionStatement
  pub size : Option FieldSize

pub data CountDescriptor : Type 0 where
  field : List String → String → CountDescriptor
  string : List String → CountDescriptor

pub data BlockStatement : Type 0 where
  declaration : Field → BlockStatement
  option : OptionStatement → BlockStatement

pub record EnumStatement : Type 0 where
  pub id : String
  pub value : Option ℕ
  pub options : List OptionStatement

pub record Service : Type 0 where
  pub caller : String
  pub reply : String
  pub events : List String
  pub stream : Bool
  pub stream_message : Option String

pub data Flag : Type 0 where
  manual_print manual_endian dont_trace auto_endian auto_reply index_reply : Flag

pub data Statement : Type 0 where
  define : String → List OptionStatement → List Field → List Flag → Option String → Statement
  option : OptionStatement → Statement
  typedef_block : String → List OptionStatement → List Field → List Flag → Statement
  typedef : Field → List Flag → Statement
  enum : String → String → List EnumStatement → Statement
  enum_flag : String → String → List EnumStatement → Statement
  union : String → List OptionStatement → List Field → Option String → Statement
  import : String → Statement
  service : List Service → Statement

pub record EnumVariant : Type 0 where
  pub id : String
  pub value : ℕ

pub data TypeDetails : Type 0 where
  typedef_block : List Field → TypeDetails
  typedef : String → Option FieldSize → TypeDetails
  union : List Field → TypeDetails
  enum : String → List EnumVariant → TypeDetails
  enum_flag : String → List EnumVariant → TypeDetails

-- `Hasher` stands for `crc32fast::Hasher`.
pub record TypeEntry (Hasher : Type 0) : Type 0 where
  pub crc : Hasher
  pub details : TypeDetails
  pub import_filename : Option String

pub record Message : Type 0 where
  pub name : String
  pub fields : List Field
  pub options : List OptionStatement
  pub flags : List Flag
  pub crc : ℕ
  pub comment : Option String

pub record Union : Type 0 where
  pub name : String
  pub fields : List Field
  pub options : List OptionStatement
  pub comment : Option String

-- The struct `Type`.
pub record BlockType : Type 0 where
  pub name : String
  pub fields : List Field
  pub options : List OptionStatement
  pub flags : List Flag

pub record Enum : Type 0 where
  pub name : String
  pub size : String
  pub variants : List EnumVariant

pub record Alias : Type 0 where
  pub field : Field
  pub flags : List Flag

-- `global_types_by_name` is an `IndexMap`: the entries, in the order of their insertion.
pub record ApiParser (Hasher : Type 0) : Type 0 where
  pub global_types_by_name : List (String × TypeEntry Hasher)
  pub options : List OptionStatement
  pub messages : List Message
  pub services : List Service
  pub imports : List String
  pub aliases : List Alias
  pub unions : List Union
  pub types : List BlockType
  pub enums : List Enum
  pub enumflags : List Enum
  pub file_crc : ℕ

-- The causes that `io` and `parser` carry along are left out.
pub data Error : Type 0 where
  io parser type_resolution type_redefinition : String → Error
  missing_reply_message_for_message : String → String → Error
  service_refers_undefined_message service_refers_undefined_message_reply : String → Error
  service_refers_undefined_event : String → String → Error
  service_caller_used_as_reply : String → Error
  missing_caller_message_for_reply : String → String → Error
  explicit_get_service_required_details : String → String → Error
  missing_details_message_for_dump : String → String → Error
  missing_dump_get_for_details_message : String → String → String → Error
  vla_field_not_last vla_field_union array_variable_not_found : String → String → Error
  string_not_array : String → Error

-- A result; a panic, where an overflow is checked; or a recursion deeper than its fuel, for the
-- stack that overflows.
pub data Result {ℓ} (A : Type ℓ) : Type ℓ where
  ok : A → Result A
  panicked : Result A
  too_deep : Result A
  err : Error → Result A

infixl 5 ◌>>=◌
abbrev pub ◌>>=◌ {ℓ κ} : {A : Type ℓ} {B : Type κ} → Result A → (A → Result B) → Result B
too_deep >>= rest = too_deep
panicked >>= rest = panicked
err e >>= rest = err e
ok a >>= rest = rest a

unfoldable pub options_from_block_statements : List BlockStatement → List OptionStatement
options_from_block_statements [] = []
options_from_block_statements (BlockStatement.option o ∷ rest) =
    o ∷ options_from_block_statements rest
options_from_block_statements (declaration f ∷ rest) = options_from_block_statements rest

unfoldable pub fields_from_block_statements : List BlockStatement → List Field
fields_from_block_statements [] = []
fields_from_block_statements (declaration f ∷ rest) = f ∷ fields_from_block_statements rest
fields_from_block_statements (BlockStatement.option o ∷ rest) = fields_from_block_statements rest

unfoldable pub define_from : String → List BlockStatement → List Flag → Option String → Statement
define_from name block flags comment =
    Statement.define name (options_from_block_statements block) (fields_from_block_statements block)
      flags comment

unfoldable pub typedef_block_from : String → List BlockStatement → List Flag → Statement
typedef_block_from name block flags =
    Statement.typedef_block name (options_from_block_statements block)
      (fields_from_block_statements block) flags

unfoldable pub union_from : String → List BlockStatement → Option String → Statement
union_from name block comment =
    Statement.union name (options_from_block_statements block) (fields_from_block_statements block)
      comment
