-- ===== src/Platform/BookingGrants/Provision.antt =====
-- `provision` of platform/booking_permissions.py, step by step.
use editingtab_platform_core.Shared.{
  ℕ, Bool, true, false, List, [], ◌∷◌, ◌++◌, Memᴰ, none, some, String, all-Memᴰ, delete_where,
  delete-Memᴰ, order_by-Memᴰ, &&-left, ◌≡◌, refl, sym, ap, ◌∙◌, subst, ◌⊎◌, inl, inr, Bool-cases,
}
use mathlib.Core.List.Memᴰ
use editingtab_platform_core.Errors.{storage_unavailable}
use editingtab_platform_core.Identity.Models.{User}
use editingtab_platform_core.Authorization.Models.{
  Role, RolePermission, MembershipRole, RoleAudit, Permissions,
}
use editingtab_platform_core.Authorization.Policy.{booking_permissions}
use editingtab_platform_core.Authorization.Repository.{role_permission_grants, permission_state}
use editingtab_platform_core.Authorization.Services.Rows.{write_role, dict_get, same_grant}
use editingtab_platform_core.Authorization.Services.Transaction.{transaction, translate}
use editingtab_platform_core.Authorization.Access.Chain.{Chain}
use editingtab_platform_core.Authorization.Access.Effective.{MayUse, MayGrant}
use editingtab_platform_core.Authorization.Access.Escalation.Assignments.{
  role_permission_grants-row,
}
use editingtab_platform_core.Authorization.Access.Writes.{
  permission_rows, of_role, insert_assignment-Ensures, replace_permissions-Ensures, audit-Ensures,
}
use editingtab_platform_core.Platform.Models.{PlatformAudit}
use editingtab_platform_core.Platform.Services.Modules.{platform_audit}
use editingtab_platform_core.Platform.BookingPermissions.{
  booking_grants, dict_eq, replace_if_changed, assign_if_missing, audit_provision, provision_body,
  provision,
}
use editingtab_platform_core.Storage.Tables.{Database, Session, Env}
use editingtab_platform_core.Storage.Ensures.{
  Ensures, Ensures-reads, Ensures-gets, Ensures-step, Ensures-rows, Ensures-family, Ensures-branch,
  Ensures-require, Ensures-modify, Ensures-modify_last, Ensures-pure, Ensures-weaken,
  transact-committed,
}
use editingtab_platform_core.Platform.BookingGrants.{
  IsBookingUse, Roles, Rows, Assigned, booking_grants-false, dict_get-false, provisioned-Chain,
  written-Roles, designate-Ensures,
}

module _ (db : Database) (env : Env) (organization_id actor_id membership_id role_id : ℕ)
    (rs : List Role) (roles : Roles db organization_id role_id rs) where
  abbrev designated : Database
  designated = record db { roles = rs }

  abbrev Written : List Role × List RolePermission × List RoleAudit → Type 0
  Written (rs', ps, audits) =
      Roles db organization_id role_id rs' × Rows db organization_id role_id ps

  -- The designated role's rows, where they are the booking grants already.
  kept_row :
      dict_eq (role_permission_grants designated organization_id role_id) booking_grants ≡ true
      → Rows db organization_id role_id db.role_permissions
  unfolding dict_eq
  kept_row e p m = elim (Bool-cases (of_role organization_id role_id p)) [
    | inl t ↦ inr (
        dict_get-false booking_permissions p.code p.can_grant (
          all-Memᴰ (λ (item : String × Bool). same_grant (dict_get item.0 booking_grants) item.1)
            (role_permission_grants designated organization_id role_id) (&&-left _ _ e)
            (role_permission_grants-row designated organization_id role_id m t)))
    | inr t ↦ inl (m, t)
  ]

  replaced-Rows : Rows db organization_id role_id (
      delete_where (of_role organization_id role_id) db.role_permissions
      ++ permission_rows organization_id role_id (permission_state booking_grants))
  unfolding permission_state
  replaced-Rows p m =
      elim (Memᴰ.append_cases (delete_where (of_role organization_id role_id) db.role_permissions)
        m) [
          | inl k ↦ inl (delete-Memᴰ _ db.role_permissions k)
          | inr k ↦
              let (item, mi, e) = Memᴰ.of_map _ _ k in
              let (mc, f) =
                booking_grants-false booking_permissions (order_by-Memᴰ _ booking_grants mi) in
              inr (
                Memᴰ.cast (sym (ap (λ (q : RolePermission). q.code) e)) mc,
                sym (ap (λ (q : RolePermission). q.can_grant) e) ∙ f,
              )
        ]

  replace_if_changed-Ensures :
      Ensures
        (λ _ db'.
          (i : List Role × List RolePermission × List RoleAudit) × Written i
          × (db' ≡ record db { roles = i.0; role_permissions = i.1; role_audit = i.2 }))
        (replace_if_changed env organization_id actor_id role_id
          (role_permission_grants designated organization_id role_id)
          designated)
  unfolding replace_if_changed write_role
  replace_if_changed-Ensures =
      Ensures-branch _ _ _ _ _
        (λ e.
          Ensures-pure _ _ _ ((rs, db.role_permissions, db.role_audit), (roles, kept_row e), refl))
        (λ _. Ensures-modify _ _ _ _ (
          Ensures-step _ _ _ _ _ _
            (replace_permissions-Ensures organization_id role_id booking_grants _)
            λ _ _.
              Ensures-weaken _ _ _
                (λ _ _ (_, e). (
                  _,
                  (
                    written-Roles db organization_id role_id rs role_id _ (λ q. (refl, refl, refl))
                        roles,
                    replaced-Rows,
                  ),
                  e,
                ))
                (audit-Ensures organization_id actor_id "booking.role.provisioned" role_id _
                  booking_grants none _)))

  abbrev AssignedRow : List MembershipRole × List RoleAudit → Type 0
  AssignedRow (ms, audits) = Assigned db organization_id role_id ms

  assign_if_missing-Ensures :
      (was_assigned : Bool) (db' : Database)
      → db'.membership_roles ≡ db.membership_roles
      → Ensures
          (λ _ db''.
            (i : List MembershipRole × List RoleAudit) × AssignedRow i
            × (db'' ≡ record db' { membership_roles = i.0; role_audit = i.1 }))
          (assign_if_missing organization_id actor_id membership_id role_id was_assigned db')
  unfolding assign_if_missing
  assign_if_missing-Ensures was_assigned db' same =
      Ensures-branch _ _ _ _ _
        (λ _. Ensures-pure _ _ _ (
          (db'.membership_roles, db'.role_audit),
          λ a m. inl (subst (λ ms. Memᴰ a ms) same m),
          refl,
        ))
        (λ _. Ensures-step _ _ _ _ _ _ (insert_assignment-Ensures _ db') λ _ _.
          Ensures-weaken _ _ _
            (λ _ _ (_, e). (_, λ a m. added (Memᴰ.append_cases db'.membership_roles m), e))
            (audit-Ensures organization_id actor_id "assignment.added" role_id [] booking_grants
              (some membership_id) _))
    where
      added :
          {a row : MembershipRole}
          → Memᴰ a db'.membership_roles ⊎ Memᴰ a (row ∷ [])
          → Memᴰ a db.membership_roles
            ⊎ ((a.role_id ≡ row.role_id) × (a.organization_id ≡ row.organization_id))
      added {a} (inl m) = inl (subst (λ ms. Memᴰ a ms) same m)
      added (inr m) = inr (
        ap (λ (x : MembershipRole). x.role_id) (Memᴰ.eq_of_singleton m),
        ap (λ (x : MembershipRole). x.organization_id) (Memᴰ.eq_of_singleton m),
      )

  audit_provision-Ensures :
      (before : Permissions) (was_assigned renamed : Bool) (db' : Database)
      → Ensures
          (λ _ db''.
            (audits : List PlatformAudit) × Unit {0}
            × (db'' ≡ record db' { platform_audit = audits }))
          (audit_provision organization_id actor_id membership_id role_id before was_assigned
            renamed db')
  unfolding audit_provision platform_audit
  audit_provision-Ensures before was_assigned renamed db' =
      Ensures-branch _ _ _ _ _ (λ _. Ensures-modify_last _ _ _ (_, tt, refl))
        (λ _. Ensures-pure _ _ _ (db'.platform_audit, tt, refl))

-- Nobody may grant more than before, and nobody may use more than before but for booking
-- permissions.
pub record OnlyBookingUses (db db' : Database) : Type 0 where
  pub uses :
      (organization_id user_id : ℕ) (code : String)
      → MayUse db' organization_id user_id code
      → MayUse db organization_id user_id code ⊎ Memᴰ code booking_permissions
  pub grants :
      (organization_id user_id : ℕ) (code : String)
      → MayGrant db' organization_id user_id code
      → MayGrant db organization_id user_id code

clash : {C : Type 0} {b : Bool} → b ≡ true → b ≡ false → C
clash e f = cc

chains-OnlyBookingUses :
    (db db' : Database)
    → ((o : ℕ) (p : RolePermission) (u : User) → Chain db' o p u → Chain db o p u ⊎ IsBookingUse p)
    → OnlyBookingUses db db'
chains-OnlyBookingUses db db' f = record {
  uses = λ o user_id code h. used h (f o h.row h.user h.chain);
  grants = λ o user_id code h. granted h (f o h.use_.row h.use_.user h.use_.chain);
}
  where
    used :
        {o user_id : ℕ} {code : String} (h : MayUse db' o user_id code)
        → Chain db o h.row h.user ⊎ IsBookingUse h.row
        → MayUse db o user_id code ⊎ Memᴰ code booking_permissions
    used h (inl c) =
        inl (record { row = h.row; user = h.user; chain = c; row_code = h.row_code; key = h.key })
    used h (inr b) = inr (Memᴰ.cast (sym h.row_code) b.0)

    granted :
        {o user_id : ℕ} {code : String} (h : MayGrant db' o user_id code)
        → Chain db o h.use_.row h.use_.user ⊎ IsBookingUse h.use_.row
        → MayGrant db o user_id code
    granted h (inl c) = record {
      use_ = record {
        row = h.use_.row;
        user = h.use_.user;
        chain = c;
        row_code = h.use_.row_code;
        key = h.use_.key;
      };
      granted = h.granted;
    }
    granted h (inr b) = clash h.granted b.1

provision_body-OnlyBookingUses :
    (env : Env) (actor_id organization_id membership_id : ℕ) (db : Database)
    → Ensures
        (λ _ db'. OnlyBookingUses db db')
        (provision_body env actor_id organization_id membership_id db)
unfolding provision_body
provision_body-OnlyBookingUses env actor_id organization_id membership_id db =
    Ensures-reads _ _ _ _ λ _ _. Ensures-reads _ _ _ _ λ _ _. Ensures-reads _ _ _ _ λ _ _.
      Ensures-reads _ _ _ _ λ member _. Ensures-reads _ _ _ _ λ _ _. Ensures-gets _ _ _ _ (
        Ensures-gets _ _ _ _ (
          Ensures-rows _ (λ (found : Role × Bool). Roles db organization_id found.0.id)
            (λ rs. record db { roles = rs }) _ _ _ (designate-Ensures env organization_id _ _ db)
            λ found rs roles. Ensures-gets _ _ _ _ (
              Ensures-require _ _ _ _ _ λ _. Ensures-gets _ _ _ _ (
                Ensures-family _
                  (Written db env organization_id actor_id membership_id found.0.id rs roles)
                  (λ i. record db { roles = i.0; role_permissions = i.1; role_audit = i.2 }) _ _ _
                  (replace_if_changed-Ensures db env organization_id actor_id membership_id
                    found.0.id rs roles)
                  λ _ i written.
                    Ensures-family _
                      (AssignedRow db env organization_id actor_id membership_id found.0.id rs
                        roles)
                      (λ j. record db {
                        roles = i.0;
                        role_permissions = i.1;
                        membership_roles = j.0;
                        role_audit = j.1;
                      })
                      _ _ _
                      (assign_if_missing-Ensures db env organization_id actor_id membership_id
                        found.0.id rs roles _ _ refl)
                      λ _ j assigned.
                        Ensures-family _ (λ _. Unit {0})
                          (λ platform. record db {
                            roles = i.0;
                            role_permissions = i.1;
                            membership_roles = j.0;
                            role_audit = j.1;
                            platform_audit = platform;
                          })
                          _ _ _
                          (audit_provision-Ensures db env organization_id actor_id membership_id
                            found.0.id rs roles _ _ _ _)
                          λ _ platform _. Ensures-pure _ _ _ (
                            chains-OnlyBookingUses db _ (
                              provisioned-Chain db organization_id found.0.id i.0 i.1 j.0 j.1
                                platform written.0 written.1 assigned))))))

-- After `provision`, whether it returned or raised, nobody in any organization may grant more
-- than before, and nobody may use more than before but for booking permissions.
pub provision-OnlyBookingUses :
    (env : Env) (actor_id organization_id membership_id : ℕ) (s : Session)
    → OnlyBookingUses s.database (provision env actor_id organization_id membership_id s).1.database
unfolding provision transaction
provision-OnlyBookingUses env actor_id organization_id membership_id s =
    transact-committed storage_unavailable translate
      (provision_body env actor_id organization_id membership_id) (OnlyBookingUses s.database) s
      (record { uses = λ _ _ _ h. inl h; grants = λ _ _ _ h. h })
      (provision_body-OnlyBookingUses env actor_id organization_id membership_id s.database)
