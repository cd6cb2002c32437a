-- ===== src/Authorization/Access/Administrator.antt =====
-- An organization's administrator, followed through the operations.
pub mod Roles
pub mod Assignments
pub mod Members
pub mod Sessions
use editingtab_platform_core.Shared.{ℕ}
use editingtab_platform_core.Identity.Models.{User}
use editingtab_platform_core.Authorization.Models.{RolePermission}
use editingtab_platform_core.Authorization.Access.Chain.{Chain}
use editingtab_platform_core.Authorization.Access.Effective.{MayGrant, HasAdministrator}
use editingtab_platform_core.Storage.Tables.{Database}

module _ {db db' : Database} {organization_id : ℕ} where
  -- Where every chain is carried over, the administrator is.
  pub HasAdministrator-map :
      ((p : RolePermission) (u : User)
        → Chain db organization_id p u
        → Chain db' organization_id p u)
      → HasAdministrator db organization_id
      → HasAdministrator db' organization_id
  HasAdministrator-map f h = record {
    administrator = h.administrator;
    grants = λ code m.
        let g = h.grants code m in
        record {
          use_ = record {
            row = g.use_.row;
            user = g.use_.user;
            chain = f g.use_.row g.use_.user g.use_.chain;
            row_code = g.use_.row_code;
            key = g.use_.key;
          };
          granted = g.granted;
        };
  }
