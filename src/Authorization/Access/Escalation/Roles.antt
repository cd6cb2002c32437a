-- ===== src/Authorization/Access/Escalation/Roles.antt =====
-- The chains after `create_role`, `update_role` and `change_role_permission`.
use editingtab_platform_core.Shared.{ℕ, Bool, List, Option, String, Text, refl, inl}
use mathlib.Core.List.Memᴰ
use editingtab_platform_core.Authorization.Models.{Role, Permissions}
use editingtab_platform_core.Authorization.Repository.{effective_grant_authority}
use editingtab_platform_core.Authorization.Guards.{PermissionInput}
use editingtab_platform_core.Authorization.Access.Escalation.{NoNewChain}
use editingtab_platform_core.Authorization.Access.Writes.{
  renamed, replace_permissions-Ensures, insert_role-Ensures, rename_role-Ensures, audit-Ensures,
}
use editingtab_platform_core.Authorization.Services.Roles.{
  create_role_body, update_role_body, change_role_permission_body, apply_permissions,
}
use editingtab_platform_core.Storage.Tables.{Database, Env}
use editingtab_platform_core.Storage.Ensures.{
  Ensures, Ensures-reads, Ensures-gets, Ensures-step, Ensures-last, Ensures-require, Ensures-branch,
  Ensures-modify,
}
use editingtab_platform_core.Authorization.Access.Escalation.Granting.{
  grantable-AllGrantable, append-RoleOrigin, update_source, replaced-NoNewChain,
}

module _ (env : Env) (organization_id actor_id : ℕ) (db : Database) where
  pub create_role_body-NoNewChain :
      (name : Text) (permissions : Option PermissionInput) (codes : Option (List String))
      → Ensures
          (λ _ db'. NoNewChain db db' organization_id actor_id)
          (create_role_body env organization_id actor_id name permissions codes db)
  unfolding create_role_body
  create_role_body-NoNewChain name permissions codes = Ensures-reads _ _ _ _ λ _ _.
      Ensures-gets _ _ _ _ (
        Ensures-reads _ _ _ _ λ selected _. Ensures-reads _ _ _ _ λ _ g.
          Ensures-reads _ _ _ _ λ names _. Ensures-step _ _ _ _ _ _ (insert_role-Ensures _ _) λ _ _.
            Ensures-step _ _ _ _ _ _ (replace_permissions-Ensures _ _ _ _) λ _ _.
              Ensures-step _ _ _ _ _ _ (audit-Ensures _ _ _ _ _ _ _ _) λ _ _. Ensures-last _ _ _ (
                replaced-NoNewChain db organization_id actor_id (env.uuid4 0) selected _ _
                  (grantable-AllGrantable db organization_id actor_id selected g)
                  (λ r m. append-RoleOrigin db _ r (Memᴰ.append_cases db.roles m))))

  pub update_role_body-NoNewChain :
      (role_id : ℕ) (name : Text) (permissions : Option PermissionInput)
      (codes : Option (List String))
      → Ensures
          (λ _ db'. NoNewChain db db' organization_id actor_id)
          (update_role_body env organization_id actor_id role_id name permissions codes db)
  unfolding update_role_body
  update_role_body-NoNewChain role_id name permissions codes = Ensures-reads _ _ _ _ λ _ _.
      Ensures-gets _ _ _ _ (
        Ensures-reads _ _ _ _ λ found _. Ensures-reads _ _ _ _ λ role _. Ensures-gets _ _ _ _ (
          Ensures-reads _ _ _ _ λ after _. Ensures-reads _ _ _ _ λ _ _. Ensures-reads _ _ _ _ λ _ g.
            Ensures-reads _ _ _ _ λ names _.
              Ensures-step _ _ _ _ _ _ (rename_role-Ensures _ _ _ _ _) λ _ _.
                Ensures-step _ _ _ _ _ _ (replace_permissions-Ensures _ _ _ _) λ _ _.
                  Ensures-reads _ _ _ _ λ _ _.
                    Ensures-step _ _ _ _ _ _ (audit-Ensures _ _ _ _ _ _ _ _) λ _ _.
                      Ensures-last _ _ _ (
                        replaced-NoNewChain db organization_id actor_id role_id after _ _
                          (grantable-AllGrantable db organization_id actor_id after g)
                          (λ r m. inl (
                            update_source db role.id (renamed names.0 names.1 env.utc_now) r
                              (λ q. (refl, refl, refl)) m)))))

  apply_permissions-NoNewChain :
      (role : Role) (before after : Permissions) (action : String)
      → Ensures
          (λ _ db'. NoNewChain db db' organization_id actor_id)
          (apply_permissions env organization_id actor_id role
            (effective_grant_authority db organization_id actor_id)
            before
            after
            action
            db)
  unfolding apply_permissions
  apply_permissions-NoNewChain role before after action = Ensures-reads _ _ _ _ λ _ _.
      Ensures-reads _ _ _ _ λ _ g. Ensures-modify _ _ _ _ (
        Ensures-step _ _ _ _ _ _ (replace_permissions-Ensures _ _ _ _) λ _ _.
          Ensures-reads _ _ _ _ λ _ _.
            Ensures-step _ _ _ _ _ _ (audit-Ensures _ _ _ _ _ _ _ _) λ _ _. Ensures-last _ _ _ (
              replaced-NoNewChain db organization_id actor_id role.id after _ _
                (grantable-AllGrantable db organization_id actor_id after g)
                (λ r m. inl (
                  update_source db role.id (λ q. record q { updated_at = env.utc_now }) r
                    (λ q. (refl, refl, refl)) m))))

  same-NoNewChain : NoNewChain db db organization_id actor_id
  same-NoNewChain p u c = inl c

  pub change_role_permission_body-NoNewChain :
      (role_id : ℕ) (code : String) (can_grant remove : Bool)
      → Ensures
          (λ _ db'. NoNewChain db db' organization_id actor_id)
          (change_role_permission_body env organization_id actor_id role_id code can_grant remove
            db)
  unfolding change_role_permission_body
  change_role_permission_body-NoNewChain role_id code can_grant remove =
      Ensures-reads _ _ _ _ λ _ _. Ensures-reads _ _ _ _ λ found _. Ensures-reads _ _ _ _ λ role _.
        Ensures-gets _ _ _ _ (
          Ensures-gets _ _ _ _ (
            Ensures-gets _ _ _ _ (
              Ensures-require _ _ _ _ _ λ _. Ensures-require _ _ _ _ _ λ _.
                Ensures-branch _ _ _ _ _
                  (λ _.
                    Ensures-branch _ _ _ _ _ (λ _. Ensures-last _ _ _ same-NoNewChain)
                      (λ _. apply_permissions-NoNewChain role _ _ _))
                  (λ _.
                    Ensures-branch _ _ _ _ _ (λ _. Ensures-last _ _ _ same-NoNewChain)
                      (λ _. apply_permissions-NoNewChain role _ _ _)))))
