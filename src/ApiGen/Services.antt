-- ===== src/ApiGen/Services.antt =====
-- `ApiParser::process` of parser.rs: the checks of the services, and those that messages imply by
-- their names.
use vpp_plugin_rs.ApiGen.Syntax.{
  service_caller_used_as_reply, missing_dump_get_for_details_message,
  missing_reply_message_for_message, explicit_get_service_required_details,
  missing_caller_message_for_reply, missing_details_message_for_dump,
  service_refers_undefined_message_reply, service_refers_undefined_event, err,
  service_refers_undefined_message, ApiParser, ok, Service, Result, ◌>>=◌,
}
use vpp_plugin_rs.ApiGen.Texts.{strip_suffix, contains, ◌===◌, ◌^^◌}
use vpp_plugin_rs.ApiGen.Statements.{ensure}
use vpp_plugin_rs.Prelude.{
  ◌||◌, if◌then◌else◌, ℕ, Bool, true, false, not, Option, none, some, List, [], ◌∷◌, ◌++◌, map,
}
use Prim.Native.String.{String}

-- Whether some service has the caller, or the reply.
abbrev pub has_caller : List Service → String → Bool
has_caller [] name = false
has_caller (s ∷ ss) name = (s.caller === name) || has_caller ss name

abbrev pub has_reply : List Service → String → Bool
has_reply [] name = false
has_reply (s ∷ ss) name = (s.reply === name) || has_reply ss name

-- `service_by_caller`: of the services with one caller, the last.
unfoldable pub by_caller : List Service → List Service
by_caller [] = []
by_caller (s ∷ ss) = if has_caller ss s.caller then by_caller ss else s ∷ by_caller ss

-- The events are those seen.
unfoldable pub check_events : List String → String → List String → Result (Unit {0})
check_events names caller [] = ok tt
check_events names caller (e ∷ es) = do
  known ← ensure (contains names e) (service_refers_undefined_event e caller)
  check_events names caller es

-- One round of the loop over `service_by_caller`.
unfoldable pub check_service : List String → List Service → Service → Result (Unit {0})
check_service names services s = do
  caller ← ensure (contains names s.caller) (service_refers_undefined_message s.caller)
  reply ←
      ensure ((s.reply === "null") || contains names s.reply)
        (service_refers_undefined_message_reply s.reply)
  once ← ensure (not (has_reply services s.caller)) (service_caller_used_as_reply s.caller)
  check_events names s.caller s.events

unfoldable pub check_services : List String → List Service → List Service → Result (Unit {0})
check_services names services [] = ok tt
check_services names services (s ∷ ss) = do
  checked ← check_service names services s
  check_services names services ss

abbrev pub all_events : List Service → List String
all_events [] = []
all_events (s ∷ ss) = s.events ++ all_events ss

abbrev pub plain_service : String → String → Bool → Service
plain_service caller reply stream = record {
  caller = caller;
  reply = reply;
  events = [];
  stream = stream;
  stream_message = none;
}

module _ (names : List String) (services : List Service) where
  abbrev pub reply_service : String → String → Result (List Service)
  reply_service base message =
      if has_caller services base
      then ok []
      else if contains names base
      then ok []
      else err (missing_caller_message_for_reply base message)

  abbrev pub dump_service : String → String → Result (List Service)
  dump_service base message =
      let details_message = base ^^ "_details" in
      if has_caller services message
      then ok []
      else if contains names details_message
      then ok (plain_service message details_message true ∷ [])
      else err (missing_details_message_for_dump details_message message)

  abbrev pub details_service : String → String → Result (List Service)
  details_service base message =
      let get_message = base ^^ "_get" in
      let dump_message = base ^^ "_dump" in
      if contains names get_message
      then (if has_caller services get_message
          then ok []
          else err (explicit_get_service_required_details get_message message))
      else if contains names dump_message
      then ok []
      else err (missing_dump_get_for_details_message get_message dump_message message)

  abbrev pub request_service : String → Result (List Service)
  request_service message =
      let reply_message = message ^^ "_reply" in
      if has_caller services message
      then ok []
      else if contains names reply_message
      then ok (plain_service message reply_message false ∷ [])
      else err (missing_reply_message_for_message message reply_message)

  abbrev pub by_suffix :
      String → Option String → Option String → Option String → Result (List Service)
  by_suffix message (some base) dump details = reply_service base message
  by_suffix message none (some base) details = dump_service base message
  by_suffix message none none (some base) = details_service base message
  by_suffix message none none none = request_service message

  -- The services that one message implies: at most one.
  unfoldable pub implied_services : List String → String → Result (List Service)
  implied_services seen message =
      if contains seen message
      then ok []
      else by_suffix message (strip_suffix message "_reply") (strip_suffix message "_dump")
          (strip_suffix message "_details")

  unfoldable pub imply_all : List String → List String → Result (List Service)
  imply_all seen [] = ok []
  imply_all seen (m ∷ ms) = do
    one ← implied_services seen m
    rest ← imply_all seen ms
    ok (one ++ rest)

module _ {Hasher : Type 0} where
  -- `order` is the order in which the hash map gives its services, whichever that is.
  unfoldable pub process :
      (List Service → List Service) → ApiParser Hasher → ℕ → Result (ApiParser Hasher)
  process order p file_crc = do
    let names = map (λ m. m.name) p.messages
    let mapped = order (by_caller p.services)
    checked ← check_services names p.services mapped
    implied ← imply_all names p.services (all_events mapped) names
    ok (record p { services = p.services ++ implied; file_crc = file_crc })
