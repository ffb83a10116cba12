-- ===== src/ApiGen/ServiceLaws.antt =====
-- What `process` of parser.rs accepts, and the services that it adds.
use text.Mathlib.TextPositions.{eq_refl}
use vpp_plugin_rs.ApiGen.Services.{
  all_events, by_caller, process, implied_services, imply_all, by_suffix, has_reply, check_service,
  check_services, check_events,
}
use vpp_plugin_rs.ApiGen.Syntax.{
  ApiParser, Message, too_deep, panicked, service_refers_undefined_event, ok, err, Service, Result,
  Error, ◌>>=◌,
}
use vpp_plugin_rs.Prelude.{
  inr, inl, Bool-cases, ℕ, ◌≡◌, refl, ap, ◌∙◌, sym, Bool, true, false, not, ◌&&◌, ◌||◌, Option,
  none, some, List, [], ◌∷◌, ◌++◌, map, arith,
}
use vpp_plugin_rs.ApiGen.Statements.{ensure}
use vpp_plugin_rs.ApiGen.Texts.{contains, ◌===◌}
use Prim.Native.String.{String}

-- A chain that succeeds went on from a success.
pub unbind {ℓ κ} :
    {A : Type ℓ} {B : Type κ} {b : B} (rest : A → Result B) (m : Result A)
    → (m >>= rest) ≡ ok b
    → (a : A) × (rest a ≡ ok b) × (m ≡ ok a)
unbind rest too_deep e = cc
unbind rest panicked e = cc
unbind rest (err why) e = cc
unbind rest (ok a) e = (a, e, refl)

abbrev pub value_or {ℓ} : {A : Type ℓ} → A → Result A → A
value_or a (ok b) = b
value_or a _ = a

pub ok-inj {ℓ} : {A : Type ℓ} {a b : A} → ok a ≡ ok b → a ≡ b
ok-inj {a = a} e = ap (value_or a) e

abbrev pub is_ok {ℓ} : {A : Type ℓ} → Result A → Bool
is_ok (ok a) = true
is_ok _ = false

is_ok-bind {ℓ κ} :
    {A : Type ℓ} {B : Type κ} (m : Result A) (n : Result B)
    → is_ok (m >>= λ a. n) ≡ (is_ok m && is_ok n)
is_ok-bind too_deep n = refl
is_ok-bind panicked n = refl
is_ok-bind (err e) n = refl
is_ok-bind (ok a) n = refl

abbrev pub all_contained : List String → List String → Bool
all_contained names [] = true
all_contained names (e ∷ es) = contains names e && all_contained names es

-- A service between messages that are defined, whose caller is no reply of another.
unfoldable pub is_valid : List String → List Service → Service → Bool
is_valid names services s =
    contains names s.caller
    && (((s.reply === "null") || contains names s.reply)
        && (not (has_reply services s.caller) && all_contained names s.events))

abbrev pub all_valid : List String → List Service → List Service → Bool
all_valid names services [] = true
all_valid names services (s ∷ ss) = is_valid names services s && all_valid names services ss

is_ok-ensure : (b : Bool) (e : Error) → is_ok (ensure b e) ≡ b
is_ok-ensure true e = refl
is_ok-ensure false e = refl

is_ok-check_events :
    (names : List String) (caller : String) (es : List String)
    → is_ok (check_events names caller es) ≡ all_contained names es
unfolding check_events
is_ok-check_events names caller [] = refl
is_ok-check_events names caller (e ∷ es) =
    is_ok-bind (ensure (contains names e) (service_refers_undefined_event e caller))
      (check_events names caller es)
    ∙ rw (
      is_ok-ensure (contains names e) (service_refers_undefined_event e caller),
      is_ok-check_events names caller es,
    )

is_ok-check_service :
    (names : List String) (services : List Service) (s : Service)
    → is_ok (check_service names services s) ≡ is_valid names services s
unfolding check_service is_valid
is_ok-check_service names services s = simp (is_ok-bind, is_ok-ensure, is_ok-check_events)

-- The loop accepts the services of which each refers to defined messages alone and none is called by
-- a reply, and no others.
pub is_ok-check_services :
    (names : List String) (services ss : List Service)
    → is_ok (check_services names services ss) ≡ all_valid names services ss
unfolding check_services
is_ok-check_services names services [] = refl
is_ok-check_services names services (s ∷ ss) =
    is_ok-bind (check_service names services s) (check_services names services ss)
    ∙ rw (is_ok-check_service names services s, is_ok-check_services names services ss)

-- Whether each service that is added is between two messages that are defined.
unfoldable pub all_known : List String → List Service → Bool
all_known names [] = true
all_known names (s ∷ ss) = (contains names s.caller && contains names s.reply) && all_known names ss

all_known-append :
    (names : List String) (ss ts : List Service)
    → all_known names (ss ++ ts) ≡ (all_known names ss && all_known names ts)
unfolding all_known
all_known-append names [] ts = refl
all_known-append names (s ∷ ss) ts = ground (arith, all_known-append names ss ts)

-- The same of a result, if it is one.
abbrev pub known_result : List String → Result (List Service) → Bool
known_result names (ok ss) = all_known names ss
known_result names _ = true

module _ (names : List String) (services : List Service) where
  by_suffix_lem :
      (m : String) (reply dump details : Option String)
      → contains names m ≡ true
      → known_result names (by_suffix names services m reply dump details) ≡ true
  unfolding all_known
  by_suffix_lem m (some base) dump details h = ground arith
  by_suffix_lem m none (some base) details h = ground arith
  by_suffix_lem m none none (some base) h = ground arith
  by_suffix_lem m none none none h = ground arith

  implied_services_lem :
      (seen : List String) (m : String)
      → contains names m ≡ true
      → known_result names (implied_services names services seen m) ≡ true
  unfolding implied_services
  implied_services_lem seen m h = elim (Bool-cases (contains seen m)) [
    | inl e ↦ rw e (unfold all_known in refl)
    | inr e ↦ rw e (by_suffix_lem m _ _ _ h)
  ]

  known_result-bind :
      (m n : Result (List Service))
      → known_result names m ≡ true
      → known_result names n ≡ true
      → known_result names (m >>= λ one. n >>= λ rest. ok (one ++ rest)) ≡ true
  known_result-bind (ok ss) (ok ts) h k = rw (all_known-append names ss ts, h, k)
  known_result-bind (ok ss) too_deep h k = refl
  known_result-bind (ok ss) panicked h k = refl
  known_result-bind (ok ss) (err e) h k = refl
  known_result-bind too_deep n h k = refl
  known_result-bind panicked n h k = refl
  known_result-bind (err e) n h k = refl

  imply_all_lem :
      (seen ms : List String)
      → all_contained names ms ≡ true
      → known_result names (imply_all names services seen ms) ≡ true
  unfolding imply_all
  imply_all_lem seen [] h = unfold all_known in refl
  imply_all_lem seen (m ∷ ms) h =
      known_result-bind (implied_services names services seen m) (imply_all names services seen ms)
        (implied_services_lem seen m (ground arith)) (imply_all_lem seen ms (ground arith))

all_contained-cons :
    (n : String) (names ms : List String)
    → all_contained names ms ≡ true
    → all_contained (n ∷ names) ms ≡ true
all_contained-cons n names [] h = refl
all_contained-cons n names (m ∷ ms) h = ground (arith, all_contained-cons n names ms)

all_contained_self : (names : List String) → all_contained names names ≡ true
all_contained_self [] = refl
all_contained_self (n ∷ names) =
    rw (eq_refl n, all_contained-cons n names names (all_contained_self names))

abbrev pub message_names : List Message → List String
message_names ms = map (λ m. m.name) ms

-- Where process succeeds, in whatever order the hash map gives its services, it keeps the declared
-- services and adds others behind them. Each declared service that the map holds, the last one of
-- its caller, has a caller that is a defined message and the reply of no declared service, a reply
-- that is null or a defined message, and events that are defined messages; each service added has
-- a defined message for caller and for reply. Nothing is said of the message that a service
-- streams.
pub process-known :
    {Hasher : Type 0} (order : List Service → List Service) (p q : ApiParser Hasher) (file_crc : ℕ)
    → process order p file_crc ≡ ok q
    → (implied : List Service) × (q.services ≡ p.services ++ implied)
      × (all_known (message_names p.messages) implied ≡ true)
      × (all_valid (message_names p.messages) p.services (order (by_caller p.services)) ≡ true)
unfolding process
process-known order p q file_crc e =
    let names = message_names p.messages in
    let mapped = order (by_caller p.services) in
    let (u, e₁, checked) = unbind _ (check_services names p.services mapped) e in
    let (implied, e₂, found) = unbind _ (imply_all names p.services (all_events mapped) names) e₁ in
    (
      implied,
      ap (λ r. r.services) (sym (ok-inj e₂)),
      ap (known_result names) (sym found)
          ∙ imply_all_lem names p.services (all_events mapped) names (all_contained_self names),
      sym (is_ok-check_services names p.services mapped) ∙ ap is_ok checked,
    )
