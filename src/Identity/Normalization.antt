-- ===== src/Identity/Normalization.antt =====
-- identity/normalization.py: what an organization's slug, an email address and a name must be.
use editingtab_platform_core.Shared.{
  ℕ, Bool, true, false, [], ◌∷◌, Text, strip, lower, count_char, length, any, leb, ltb, ◌==◌, not,
  ◌&&◌, ◌||◌, if◌then◌else◌,
}
use editingtab_platform_core.Errors.{invalid_identity}
use editingtab_platform_core.Outcome.{Outcome, ok, require, ◌>>◌}

unfoldable pub is_slug_char : ℕ → Bool
is_slug_char c = (leb b'a' c && leb c b'z') || (leb b'0' c && leb c b'9')

-- The automaton of `[a-z0-9]+(?:-[a-z0-9]+)*`: whether the match may end here, and whether a
-- hyphen may follow, is whether a letter or digit came last.
unfoldable pub slug_from : Bool → Text → Bool
slug_from after_char [] = after_char
slug_from after_char (c ∷ s) = elim (is_slug_char c) [
  | true ↦ slug_from true s
  | false ↦ (c == b'-' && after_char) && slug_from false s
]

unfoldable pub is_slug : Text → Bool
unfolding slug_from
is_slug s = slug_from false s

unfoldable pub normalize_slug : Text → Outcome Text
normalize_slug value =
    let slug = lower (strip value) in
    require (not (ltb 63 (length slug) || not (is_slug slug))) invalid_identity >> ok slug

-- `all(email.split("@"))` for an address with one `@`: neither part is empty.
unfoldable pub has_parts : Bool → Text → Bool
has_parts part [] = part
has_parts part (c ∷ s) = if c == b'@' then part && has_parts false s else has_parts true s

-- The address as written, and in lower case.
unfoldable pub normalize_email : Text → Outcome (Text × Text)
normalize_email value =
    let email = strip value in
    require
      (not (
        ltb 254 (length email)
        || not (count_char b'@' email == 1)
        || any (λ c. not (leb 33 c && leb c 126)) email
        || not (has_parts false email)))
      invalid_identity
    >> ok (email, lower email)

unfoldable pub clean_name : Text → Outcome Text
clean_name value =
    let name = strip value in
    require
      (not (
        not (leb 1 (length name) && leb (length name) 200) || any (λ c. ltb c 32 || c == 127) name))
      invalid_identity
    >> ok name
