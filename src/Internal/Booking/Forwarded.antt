-- ===== src/Internal/Booking/Forwarded.antt =====
-- `BookingRequestGuard` of internal/booking.py: the calls that reach the application.
use editingtab_platform_core.Shared.{
  ◌≤◌, Bool, true, false, List, [], ◌∷◌, Option, some, Memᴰ, Text, length, str_eq, str_eq→≡,
  str_eq_refl, contains-Memᴰ, Memᴰ-contains, not, ◌||◌, if◌then◌else◌, ◌≡◌, refl, sym, ◌∙◌, ap,
  subst, ◌↔◌, is_some,
}
use editingtab_platform_core.Config.{Settings}
use editingtab_platform_core.Auth.Security.{Hashing, token_digest}
use editingtab_platform_core.Internal.Booking.Guard.{
  paths, Scope, Message, Decision, forwarded, passed, failure, valid_service, trusted_transport,
  header_values, buffer, invalid_authorization_request, is_service, is_session, guard,
}
use editingtab_platform_core.Internal.Booking.Delivered.{
  Delivered, buffer-Delivered, Delivered-buffer,
}

module _ (h : Hashing) (is_loopback : Text → Option Bool) (settings : Settings) (scope : Scope)
    (messages : List Message) where
  -- A request on one of the two paths, over a trusted transport, with the service's credentials as
  -- its only authorization, with one session token, and with a body.
  pub record Accepted (body : Text) : Type 0 where
    pub http : scope.type ≡ "http"
    pub path : Memᴰ scope.path paths
    pub trusted : trusted_transport is_loopback scope settings ≡ true
    pub service : Text
    pub service_only : header_values "authorization" scope.headers ≡ service ∷ []
    pub service_valid : valid_service h settings service ≡ true
    pub token : Text
    pub token_only : header_values "x-core-session" scope.headers ≡ token ∷ []
    pub token_valid : is_some (token_digest h (some token)) ≡ true
    pub post : scope.method ≡ "POST"
    pub delivered : Delivered [] messages body

  is_service-only :
      (values : List Text)
      → is_service h is_loopback settings values ≡ true
      → (v : Text) × (values ≡ v ∷ []) × (valid_service h settings v ≡ true)
  unfolding is_service
  is_service-only [] e = cc
  is_service-only (v ∷ []) e = (v, refl, e)
  is_service-only (v ∷ w ∷ values) e = cc

  is_session-only :
      (values : List Text)
      → is_session h is_loopback settings values ≡ true
      → (v : Text) × (values ≡ v ∷ []) × (is_some (token_digest h (some v)) ≡ true)
  unfolding is_session
  is_session-only [] e = cc
  is_session-only (v ∷ []) e = (v, refl, e)
  is_session-only (v ∷ w ∷ values) e = cc

  -- The tests of the guard, in its order.
  tests-forwarded :
      (is_http is_path is_trusted service session post : Bool) (d : Decision) {body : Text}
      → (if not is_http || not is_path
          then passed
          else if not is_trusted || not service
          then failure 401 "invalid_service_credentials"
          else if not session
          then failure 401 "invalid_user_session"
          else if not post
          then invalid_authorization_request
          else d)
        ≡ forwarded body
      → (is_http ≡ true)
        × (is_path ≡ true)
        × (is_trusted ≡ true)
        × (service ≡ true)
        × (session ≡ true)
        × (post ≡ true)
        × (d ≡ forwarded body)
  tests-forwarded true true true true true true d e = (refl, refl, refl, refl, refl, refl, e)
  tests-forwarded false is_path is_trusted service session post d e = cc
  tests-forwarded true false is_trusted service session post d e = cc
  tests-forwarded true true false service session post d e = cc
  tests-forwarded true true true false session post d e = cc
  tests-forwarded true true true true false post d e = cc
  tests-forwarded true true true true true false d e = cc

  guard-Accepted :
      {body : Text} → guard h is_loopback settings scope messages ≡ forwarded body → Accepted body
  unfolding guard
  guard-Accepted e =
      let (a, b, c, d, f, g, i) = tests-forwarded _ _ _ _ _ _ (buffer [] messages) e in
      let (service, only, valid) = is_service-only _ d in
      let (token, token_only, token_valid) = is_session-only _ f in
      record {
        http = str_eq→≡ _ _ a;
        path = contains-Memᴰ paths b;
        trusted = c;
        service = service;
        service_only = only;
        service_valid = valid;
        token = token;
        token_only = token_only;
        token_valid = token_valid;
        post = str_eq→≡ _ _ g;
        delivered = buffer-Delivered [] messages i;
      }

  forwarded-tests :
      (is_http is_path is_trusted service session post : Bool) (d : Decision)
      → is_http ≡ true
      → is_path ≡ true
      → is_trusted ≡ true
      → service ≡ true
      → session ≡ true
      → post ≡ true
      → (if not is_http || not is_path
          then passed
          else if not is_trusted || not service
          then failure 401 "invalid_service_credentials"
          else if not session
          then failure 401 "invalid_user_session"
          else if not post
          then invalid_authorization_request
          else d)
        ≡ d
  forwarded-tests is_http is_path is_trusted service session post d e1 e2 e3 e4 e5 e6 =
      rw (e1, e2, e3, e4, e5, e6)

  only-is_service :
      (v : Text)
      → valid_service h settings v ≡ true
      → is_service h is_loopback settings (v ∷ []) ≡ true
  unfolding is_service
  only-is_service v e = e

  only-is_session :
      (v : Text)
      → is_some (token_digest h (some v)) ≡ true
      → is_session h is_loopback settings (v ∷ []) ≡ true
  unfolding is_session
  only-is_session v e = e

  Accepted-buffer : {body : Text} → Delivered [] messages body → buffer [] messages ≡ forwarded body
  Accepted-buffer d =
      ap (buffer []) d.in_order
      ∙ Delivered-buffer [] d.parts d.final d.rest (subst (λ b. length b ≤ 4096) d.whole d.bounded)
      ∙ ap forwarded (sym d.whole)

  Accepted-guard :
      {body : Text} → Accepted body → guard h is_loopback settings scope messages ≡ forwarded body
  unfolding guard
  Accepted-guard a =
      forwarded-tests _ _ _ _ _ _ (buffer [] messages)
        (subst (λ s. str_eq s "http" ≡ true) (sym a.http) (str_eq_refl "http"))
        (Memᴰ-contains paths a.path) a.trusted
        (subst (λ v. is_service h is_loopback settings v ≡ true) (sym a.service_only)
          (only-is_service a.service a.service_valid))
        (subst (λ v. is_session h is_loopback settings v ≡ true) (sym a.token_only)
          (only-is_session a.token a.token_valid))
        (subst (λ s. str_eq s "POST" ≡ true) (sym a.post) (str_eq_refl "POST"))
      ∙ Accepted-buffer a.delivered

-- The guard hands a request to the application with a buffered body exactly when the request is
-- an HTTP call of one of the two paths by POST, came over a trusted transport, has the service's
-- credentials as its only authorization header and a well-formed session token as its only
-- session header, and its messages bring that body whole, in at most 4096 bytes.
pub guard_forwarded_iff :
    (h : Hashing) (is_loopback : Text → Option Bool) (settings : Settings) (scope : Scope)
    (messages : List Message) (body : Text)
    → (guard h is_loopback settings scope messages ≡ forwarded body)
      ↔ Accepted h is_loopback settings scope messages body
guard_forwarded_iff h is_loopback settings scope messages body = (
  guard-Accepted h is_loopback settings scope messages,
  Accepted-guard h is_loopback settings scope messages,
)
