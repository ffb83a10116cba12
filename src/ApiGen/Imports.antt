-- ===== src/ApiGen/Imports.antt =====
-- `ApiParser::new` and `do_imports` of parser.rs.
use vpp_plugin_rs.ApiGen.Services.{process}
use vpp_plugin_rs.ApiGen.Syntax.{ok, too_deep, ApiParser, Service, Statement, Result, ◌>>=◌}
use vpp_plugin_rs.ApiGen.Statements.{process_statements}
use vpp_plugin_rs.ApiGen.Crc.{Crc}
use vpp_plugin_rs.Prelude.{ℕ, zero, suc, Bool, none, some, List, [], ◌∷◌}
use Prim.Native.String.{String}

-- `parse_file` reads a file and parses it with the grammar. The fuel bounds how deep imports nest:
-- files that import each other overflow the stack.
module _ {Hasher : Type 0} (checks : Bool) (c : Crc Hasher)
    (parse_file : String → Result (List Statement)) where
  abbrev pub import_each :
      (ApiParser Hasher → List Statement → Result (ApiParser Hasher))
      → ApiParser Hasher
      → List Statement
      → Result (ApiParser Hasher)
  import_each do_imports p [] = ok p
  import_each do_imports p (Statement.import file ∷ rest) = do
    imported ← parse_file file
    p₁ ← do_imports p imported
    (p₂, crc) ← process_statements checks c p₁ imported (some file)
    import_each do_imports p₂ rest
  import_each do_imports p (_ ∷ rest) = import_each do_imports p rest

  unfoldable pub do_imports : ℕ → ApiParser Hasher → List Statement → Result (ApiParser Hasher)
  do_imports zero p statements = too_deep
  do_imports (suc fuel) p statements = import_each (do_imports fuel) p statements

  abbrev pub empty_parser : ApiParser Hasher
  empty_parser = record {
    global_types_by_name = [];
    options = [];
    messages = [];
    services = [];
    imports = [];
    aliases = [];
    unions = [];
    types = [];
    enums = [];
    enumflags = [];
    file_crc = 0;
  }

  unfoldable pub new_parser : ℕ → (List Service → List Service) → String → Result (ApiParser Hasher)
  new_parser depth order filename = do
    statements ← parse_file filename
    p₁ ← do_imports depth empty_parser statements
    (p₂, file_crc) ← process_statements checks c p₁ statements none
    process order p₂ file_crc
