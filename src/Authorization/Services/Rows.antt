-- ===== src/Authorization/Services/Rows.antt =====
-- authorization/services.py: a write through a loaded role, and dicts of permissions.
use editingtab_platform_core.Shared.{
  ℕ, Bool, true, false, [], ◌∷◌, Option, none, some, String, str_eq, not, update_where, ◌==◌,
  if◌then◌else◌,
}
use editingtab_platform_core.Authorization.Models.{Role, Permissions}
use editingtab_platform_core.Storage.Tables.{Database}
use editingtab_platform_core.Storage.Exec.{Exec, modify}

-- A write to the role with the given key.
unfoldable pub write_role : ℕ → (Role → Role) → Exec Database (Unit {0})
write_role role_id f =
    modify (λ db. record db { roles = update_where (λ (r : Role). r.id == role_id) f db.roles })

-- `permissions.get(code)`
unfoldable pub dict_get : String → Permissions → Option Bool
dict_get code [] = none
dict_get code ((c, grant) ∷ rest) = if str_eq c code then some grant else dict_get code rest

-- `permissions[code] = can_grant`
unfoldable pub dict_set : String → Bool → Permissions → Permissions
dict_set code can_grant [] = (code, can_grant) ∷ []
dict_set code can_grant ((c, grant) ∷ rest) =
    if str_eq c code then (c, can_grant) ∷ rest else (c, grant) ∷ dict_set code can_grant rest

-- `del permissions[code]`
unfoldable pub dict_del : String → Permissions → Permissions
dict_del code [] = []
dict_del code ((c, grant) ∷ rest) = if str_eq c code then rest else (c, grant) ∷ dict_del code rest

-- `permissions.get(code) is can_grant and code in permissions`
abbrev pub same_grant : Option Bool → Bool → Bool
same_grant none can_grant = false
same_grant (some true) can_grant = can_grant
same_grant (some false) can_grant = not can_grant
