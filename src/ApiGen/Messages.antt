-- ===== src/ApiGen/Messages.antt =====
-- The messages of parser.rs: their implicit field and the replies that are generated for them.
use vpp_plugin_rs.ApiGen.Syntax.{auto_reply, index_reply, Flag, Message, OptionStatement, Field}
use vpp_plugin_rs.ApiGen.Texts.{◌===◌, ◌^^◌, is_none}
use vpp_plugin_rs.ApiGen.Crc.{crc_data_for_fields, Crc}
use vpp_plugin_rs.Prelude.{
  ◌&&◌, if◌then◌else◌, ℕ, Bool, true, false, ◌||◌, Option, none, some, List, [], ◌∷◌,
}
use Prim.Native.String.{String}

abbrev pub plain_field : String → String → Field
plain_field type name = record { type = type; name = name; options = []; size = none }

unfoldable pub new_message :
    String → List OptionStatement → List Field → List Flag → ℕ → Option String → Message
new_message name options fields flags crc comment = record {
  name = name;
  fields = plain_field "u16" "_vl_msg_id" ∷ fields;
  options = options;
  flags = flags;
  crc = crc;
  comment = comment;
}

abbrev pub is_auto_reply : Flag → Bool
is_auto_reply auto_reply = true
is_auto_reply _ = false

abbrev pub is_index_reply : Flag → Bool
is_index_reply index_reply = true
is_index_reply _ = false

abbrev pub any_flag : (Flag → Bool) → List Flag → Bool
any_flag p [] = false
any_flag p (f ∷ fs) = p f || any_flag p fs

unfoldable pub has_auto_reply : Message → Bool
has_auto_reply m = any_flag is_auto_reply m.flags

unfoldable pub has_index_reply : Message → Bool
has_index_reply m = any_flag is_index_reply m.flags

-- The fields of a generated reply behind `_vl_msg_id`, which its checksum leaves out.
abbrev pub reply_fields : Bool → List Field
reply_fields is_auto =
    plain_field "u32" "context"
    ∷ plain_field "i32" "retval"
    ∷ (if is_auto then [] else plain_field "u32" "index" ∷ [])

module _ {Hasher : Type 0} (c : Crc Hasher) where
  unfoldable pub generated_reply : Message → Option Message
  unfolding has_auto_reply has_index_reply
  generated_reply m =
      let is_auto = has_auto_reply m in
      if is_auto || has_index_reply m
      then some (record {
        name = m.name ^^ "_reply";
        fields = plain_field "u16" "_vl_msg_id" ∷ reply_fields is_auto;
        options = m.options;
        flags = [];
        crc = c.finalize (c.update c.new (crc_data_for_fields (reply_fields is_auto)));
        comment = none;
      })
      else none

-- Whether a message has a field for an error code of VPP.
abbrev pub is_retval : Field → Bool
is_retval f = (f.name === "retval") && ((f.type === "i32") && is_none f.size)

unfoldable pub any_retval : List Field → Bool
any_retval [] = false
any_retval (f ∷ fs) = is_retval f || any_retval fs

unfoldable pub has_retval : Message → Bool
has_retval m = any_retval m.fields
