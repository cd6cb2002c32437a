-- ===== src/Auth/Diagnose.antt =====
-- auth/diagnose.py: `inspect_password`, which reads and writes nothing.
use editingtab_platform_core.Shared.{
  Bool, false, Option, none, some, Text, text_eq, first, ◌&&◌, is_none,
}
use editingtab_platform_core.Outcome.{Outcome, ok, ◌>>=◌}
use editingtab_platform_core.Identity.Models.{User}
use editingtab_platform_core.Identity.Normalization.{normalize_email}
use editingtab_platform_core.Auth.Security.{Hashing, verify_password, is_nonempty}
use editingtab_platform_core.Auth.Repository.Records.{get_credential}
use editingtab_platform_core.Storage.Tables.{Database}

-- The user of the address, with the hash of the user's password, if there is one.
unfoldable pub inspected_row : Database → Text → Option (User × Option Text)
inspected_row db normalized =
    elim (first (λ (u : User). text_eq u.normalized_email normalized) db.users) [
      | none ↦ none
      | some user ↦ some (
        user,
        elim (get_credential db user.id) [
          | none ↦ none
          | some credential ↦ some credential.password_hash
        ],
      )
    ]

-- `row.password_hash if row is not None else None`
unfoldable pub row_hash : Option (User × Option Text) → Option Text
row_hash none = none
row_hash (some (user, encoded)) = encoded

-- `bool(row is not None and row.is_active and not row.archived and encoded)`
unfoldable pub is_eligible : Option (User × Option Text) → Bool
is_eligible none = false
is_eligible (some (user, none)) = false
is_eligible (some (user, some encoded)) =
    user.is_active && (is_none user.deleted_at && is_nonempty encoded)

unfoldable pub inspect_password : Hashing → Database → Text → Text → Outcome (Bool × Bool)
unfolding inspected_row row_hash is_eligible
inspect_password h db email password = do
  emails ← normalize_email email
  let row = inspected_row db emails.1
  ok (is_eligible row, verify_password h (row_hash row) password)
