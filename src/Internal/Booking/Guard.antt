-- ===== src/Internal/Booking/Guard.antt =====
-- internal/booking.py: the service's credentials, the transport, and `BookingRequestGuard`.
use editingtab_platform_core.Shared.{
  ℕ, zero, suc, Bool, true, false, List, [], ◌∷◌, ◌++◌, map, Option, none, some, String, Text,
  codes, text_eq, str_eq, contains, length, all, where_, lower, leb, ltb, is_some, ◌==◌, ◌&&◌, ◌||◌,
  not, if◌then◌else◌,
}
use editingtab_platform_core.Config.{Settings, auth_secure_cookie}
use editingtab_platform_core.Auth.Security.{Hashing, is_token_char, token_digest}

abbrev pub paths : List String
paths = "/internal/v1/booking/authorize" ∷ "/internal/v1/booking/authorize-destructive" ∷ []

-- What stands before and after the first space, if there is one.
unfoldable pub partition : Text → Option (Text × Text)
partition [] = none
partition (c ∷ s) =
    let rest = partition s in
    if c == 32 then some ([], s) else elim rest [ none ↦ none | some (a, b) ↦ some (c ∷ a, b) ]

-- `[A-Za-z0-9_-]{43,128}`
unfoldable pub is_secret : Text → Bool
unfolding is_token_char
is_secret secret = leb 43 (length secret) && leb (length secret) 128 && all is_token_char secret

-- `"0" * 64`
unfoldable pub zeros : ℕ → Text
zeros zero = []
zeros (suc n) = b'0' ∷ zeros n

-- `hmac.compare_digest(digest, slot if slot else "0" * 64)`
unfoldable pub matches_slot : Text → Option Text → Bool
unfolding zeros
matches_slot digest none = text_eq digest (zeros 64)
matches_slot digest (some slot) = text_eq digest slot

unfoldable pub matches_service : Settings → Text → Bool
unfolding matches_slot
matches_service settings digest =
    is_some settings.booking_service_current_digest
    && (matches_slot digest settings.booking_service_current_digest
        || (is_some settings.booking_service_previous_digest
            && matches_slot digest settings.booking_service_previous_digest))

unfoldable pub valid_service : Hashing → Settings → Text → Bool
unfolding partition is_secret matches_service
valid_service h settings header =
    if ltb 140 (length header) then false else elim (partition header) [
      | none ↦ false
      | some (scheme, secret) ↦
          text_eq (lower scheme) (codes "bearer")
          && (is_secret secret && matches_service settings (h.sha256 secret))
    ]

-- What the guard reads of an ASGI scope. `client_host` is none where the server names no client.
pub record Scope : Type 0 where
  pub type : String
  pub path : String
  pub method : String
  pub scheme : Option String
  pub client_host : Option Text
  pub headers : List (Text × Text)

abbrev pub is_scheme : Option String → String → Bool
is_scheme none name = false
is_scheme (some scheme) name = str_eq scheme name

-- `is_loopback` is `ipaddress.ip_address(host).is_loopback`, none where the host is no address.
unfoldable pub trusted_transport : (Text → Option Bool) → Scope → Settings → Bool
trusted_transport is_loopback scope settings =
    if is_scheme scope.scheme "https"
    then true
    else if auth_secure_cookie settings || not (is_scheme scope.scheme "http")
    then false
    else elim scope.client_host [
      | none ↦ false
      | some host ↦ elim (is_loopback host) [ none ↦ false | some b ↦ b ]
    ]

-- The values of the headers with a name, in any case.
unfoldable pub header_values : String → List (Text × Text) → List Text
header_values name headers =
    map (λ (header : Text × Text). header.1)
      (where_ (λ (header : Text × Text). text_eq (lower header.0) (codes name)) headers)

-- The headers of a response through `no_store`.
unfoldable pub no_store : List (Text × Text) → List (Text × Text)
no_store headers =
    where_ (λ (header : Text × Text). not (text_eq (lower header.0) (codes "cache-control")))
      headers
    ++ (codes "cache-control", codes "no-store") ∷ []

-- A message of the ASGI receive channel: a part of the body, and whether more follow.
pub data Message : Type 0 where
  disconnect : Message
  request : Text → Bool → Message

-- What becomes of a call: the application without the guard, a failure, no answer, the application
-- with the buffered body, or a wait for messages that did not come yet.
pub data Decision : Type 0 where
  passed closed waiting : Decision
  failure : ℕ → String → Decision
  forwarded : Text → Decision

abbrev pub invalid_authorization_request : Decision
invalid_authorization_request = failure 422 "invalid_authorization_request"

-- The loop that buffers the body.
unfoldable pub buffer : Text → List Message → Decision
buffer body [] = waiting
buffer body (disconnect ∷ messages) = closed
buffer body (request part more ∷ messages) =
    let rest = buffer (body ++ part) messages in
    if ltb 4096 (length (body ++ part))
    then invalid_authorization_request
    else if more
    then rest
    else forwarded (body ++ part)

module _ (h : Hashing) (is_loopback : Text → Option Bool) (settings : Settings) where
  -- The only authorization header is the service's.
  unfoldable pub is_service : List Text → Bool
  unfolding valid_service
  is_service (header ∷ []) = valid_service h settings header
  is_service _ = false

  -- The only session header holds a token.
  unfoldable pub is_session : List Text → Bool
  is_session (token ∷ []) = is_some (token_digest h (some token))
  is_session _ = false

  -- `BookingRequestGuard.__call__`
  unfoldable pub guard : Scope → List Message → Decision
  unfolding trusted_transport header_values is_service is_session buffer
  guard scope messages =
      if not (str_eq scope.type "http") || not (contains paths scope.path)
      then passed
      else if not (trusted_transport is_loopback scope settings)
          || not (is_service (header_values "authorization" scope.headers))
      then failure 401 "invalid_service_credentials"
      else if not (is_session (header_values "x-core-session" scope.headers))
      then failure 401 "invalid_user_session"
      else if not (str_eq scope.method "POST")
      then invalid_authorization_request
      else buffer [] messages
