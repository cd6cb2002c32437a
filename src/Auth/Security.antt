-- ===== src/Auth/Security.antt =====
-- auth/security.py: passwords and tokens. The hash functions are parameters.
use editingtab_platform_core.Shared.{
  ℕ, Bool, true, false, [], ◌∷◌, Option, none, some, Text, length, all, any, leb, ◌==◌, ◌&&◌, ◌||◌,
  not, if◌then◌else◌,
}
use editingtab_platform_core.Errors.{value_error}
use editingtab_platform_core.Outcome.{Outcome, require, ◌>>◌}

-- What the code takes from hashlib and argon2: the hexadecimal SHA-256 of a text's UTF-8 bytes, and
-- `PasswordHasher` with `hash` at a salt, `verify`, and `check_needs_rehash`. `dummy` is the hash
-- that `Passwords` makes when it is built.
pub record Hashing : Type 0 where
  pub sha256 : Text → Text
  pub hash : ℕ → Text → Outcome Text
  pub verify : Text → Text → Bool
  pub check_needs_rehash : Text → Bool
  pub dummy : Text

-- A code point that UTF-8 does not encode.
abbrev pub is_surrogate : ℕ → Bool
is_surrogate c = leb 0xD800 c && leb c 0xDFFF

unfoldable pub validate_password : Text → Outcome (Unit {0})
validate_password password =
    require (leb 15 (length password) && leb (length password) 1024) value_error
    >> require (not (any is_surrogate password)) value_error

-- `bool(encoded)`
abbrev pub is_nonempty : Text → Bool
is_nonempty [] = false
is_nonempty (c ∷ s) = true

-- The characters of `[A-Za-z0-9_-]`.
unfoldable pub is_token_char : ℕ → Bool
is_token_char c =
    (leb b'A' c && leb c b'Z')
    || (leb b'a' c && leb c b'z')
    || (leb b'0' c && leb c b'9')
    || c == b'_'
    || c == b'-'

unfoldable pub is_token : Text → Bool
unfolding is_token_char
is_token token = length token == 43 && all is_token_char token

module _ (h : Hashing) where
  -- `Passwords.verify`: without a hash the dummy is verified, and the answer is no.
  unfoldable pub verify_password : Option Text → Text → Bool
  verify_password none password = false && h.verify h.dummy password
  verify_password (some encoded) password =
      is_nonempty encoded && h.verify (if is_nonempty encoded then encoded else h.dummy) password

  -- `Passwords.hash`
  unfoldable pub hash_password : ℕ → Text → Outcome Text
  unfolding validate_password
  hash_password salt password = do validate_password password; h.hash salt password

  unfoldable pub token_digest : Option Text → Option Text
  unfolding is_token
  token_digest none = none
  token_digest (some token) = if is_token token then some (h.sha256 token) else none
