-- ===== src/ApiGen/Tests.antt =====
-- A small API file, and each theorem at it. The checksum here is the text itself and its length.
use vpp_plugin_rs.ApiGen.Texts.{join, strip_prefix, strip_suffix, decimal, show_u32, ◌^^◌}
use vpp_plugin_rs.ApiGen.Crc.{
  enum_variants_from_block_statements, crc_data_for_enum_block_statements, statement_crc_data,
  number_variants, Crc, enum_data,
}
use vpp_plugin_rs.ApiGen.Services.{
  implied_services, imply_all, by_caller, plain_service, check_services, process,
}
use vpp_plugin_rs.ApiGen.EnumLaws.{enum_data-number_variants, covered}
use vpp_plugin_rs.ApiGen.Table.{referred_type, field_vla_with, field_vla}
use vpp_plugin_rs.ApiGen.ServiceLaws.{process-known, all_valid, message_names, all_known}
use vpp_plugin_rs.ApiGen.Statements.{
  process_statement, validate_fields, process_all, validate_vla, process_statements,
}
use vpp_plugin_rs.ApiGen.Syntax.{
  ok, variable, TypeDetails, ApiParser, Statement, Service, EnumStatement, Message, Field, ◌>>=◌,
}
use vpp_plugin_rs.ApiGen.VlaLaws.{validate_vla-IsLaidOut, IsLaidOut}
use vpp_plugin_rs.ApiGen.Messages.{new_message}
use vpp_plugin_rs.ApiGen.ImportLaws.{process_statements-forget_types, forget_types}
use vpp_plugin_rs.Prelude.{◌≡◌, refl, true, false, none, some, List, [], ◌∷◌, ◌++◌}
use Prim.Native.String.{String, len}

abbrev text_crc : Crc String
text_crc = record {
  new = "";
  update = λ h s. h ^^ s;
  combine = λ h g. h ^^ g;
  finalize = λ h. len h;
}

abbrev message : String → Message
message name = new_message name [] [] [] 0 none

abbrev links : ApiParser String
links = record {
  global_types_by_name = [];
  options = [];
  messages =
      message "link_dump" ∷ message "link_details" ∷ message "ping" ∷ message "ping_reply" ∷ [];
  services = [];
  imports = [];
  aliases = [];
  unions = [];
  types = [];
  enums = [];
  enumflags = [];
  file_crc = 0;
}

abbrev links_done : ApiParser String
links_done = record links {
  services =
      plain_service "link_dump" "link_details" true ∷ plain_service "ping" "ping_reply" false ∷ [];
  file_crc = 7;
}

links_processed : process (λ ss. ss) links 7 ≡ ok links_done
unfolding process check_services by_caller imply_all implied_services strip_suffix new_message
links_processed = refl

process-known_example :
    (implied : List Service) × (links_done.services ≡ links.services ++ implied)
    × (all_known (message_names links.messages) implied ≡ true)
    × (all_valid (message_names links.messages) links.services (by_caller links.services) ≡ true)
process-known_example = process-known (λ ss. ss) links links_done 7 links_processed

abbrev states : List EnumStatement
states =
    record { id = "DOWN"; value = none; options = [] }
    ∷ record { id = "UP"; value = some 4; options = [] }
    ∷ record {
      id = "OLD";
      value = none;
      options = record { option = "backwards_compatible"; value = none } ∷ [];
    }
    ∷ []

enum_data-number_variants_example :
    enum_data true states 0 ≡ (number_variants true states 0 >>= λ vs. ok (covered states vs))
enum_data-number_variants_example = enum_data-number_variants true states 0

states_covered : enum_data true states 0 ≡ ok ("['DOWN', 0]" ∷ "['UP', 4]" ∷ [])
unfolding enum_data show_u32 decimal
states_covered = refl

abbrev imported : List Statement
imported =
    Statement.option (record { option = "version"; value = some "1.0.0" })
    ∷ Statement.enum "state" "u8" states
    ∷ []

abbrev with_state : ApiParser String
with_state = record links {
  global_types_by_name =
      (
        "state",
        record {
          crc = "[['DOWN', 0], ['UP', 4]]";
          details = TypeDetails.enum "u8" (
              record { id = "DOWN"; value = 0 }
              ∷ record { id = "UP"; value = 4 }
              ∷ record { id = "OLD"; value = 5 }
              ∷ []);
          import_filename = some "state.api";
        },
      )
      ∷ [];
}

imported_processed :
    process_statements true text_crc links imported (some "state.api") ≡ ok (with_state, 31)
unfolding process_statements process_all process_statement statement_crc_data
    crc_data_for_enum_block_statements enum_variants_from_block_statements number_variants enum_data
    show_u32 decimal join
imported_processed = refl

process_statements-forget_types_example : forget_types with_state ≡ forget_types links
process_statements-forget_types_example =
    process_statements-forget_types true text_crc "state.api" links with_state imported 31
      imported_processed

abbrev counted : List Field
counted =
    record { type = "u8"; name = "count"; options = []; size = none }
    ∷ record { type = "u32"; name = "ids"; options = []; size = some (variable (some "count")) }
    ∷ []

counted_valid : validate_vla true text_crc links "ids" counted false ≡ ok true
unfolding validate_vla validate_fields field_vla field_vla_with referred_type strip_prefix
counted_valid = refl

validate_vla-IsLaidOut_example : IsLaidOut links.global_types_by_name false counted counted
validate_vla-IsLaidOut_example =
    validate_vla-IsLaidOut true text_crc links "ids" counted false true counted_valid

abbrev state_field : Field
state_field = record { type = "vl_api_state_t"; name = "state"; options = []; size = none }
