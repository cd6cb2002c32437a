-- ===== src/Authorization/Access/Loops.antt =====
-- What the loops that delete assignments leave.
use editingtab_platform_core.Shared.{
  ℕ, false, List, [], ◌∷◌, Memᴰ, String, ◌≡◌, refl, sym, delete_where, Memᴰ-delete, delete-Memᴰ,
  subst,
}
use editingtab_platform_core.Authorization.Models.{MembershipRole, RoleAudit, Permissions}
use editingtab_platform_core.Authorization.Services.Assignments.{
  remove_assignments, delete_assignments,
}
use editingtab_platform_core.Authorization.Services.Members.{strip_assignments}
use editingtab_platform_core.Authorization.Access.Writes.{
  same_assignment, audit-Ensures, delete_assignment-Ensures,
}
use editingtab_platform_core.Storage.Tables.{Database}
use editingtab_platform_core.Storage.Ensures.{
  Ensures, Ensures-step, Ensures-pure, Ensures-weaken, Ensures-gets, Ensures-reads,
}

-- The assignments `left` are those of `old` that are none of the rows `gone`.
pub record Removed (old gone left : List MembershipRole) : Type 0 where
  pub was : (a : MembershipRole) → Memᴰ a left → Memᴰ a old
  pub not_gone : (a b : MembershipRole) → Memᴰ a left → Memᴰ b gone → same_assignment b a ≡ false
  pub kept :
      (a : MembershipRole)
      → Memᴰ a old
      → ((b : MembershipRole) → Memᴰ b gone → same_assignment b a ≡ false)
      → Memᴰ a left

-- The state with other assignments and audit rows.
abbrev pub relisted : Database → List MembershipRole × List RoleAudit → Database
relisted db (left, audits) = record db { membership_roles = left; role_audit = audits }

abbrev pub RemovedFrom :
    Database → List MembershipRole → List MembershipRole × List RoleAudit → Type 0
RemovedFrom db gone (left, audits) = Removed db.membership_roles gone left

-- The loop has deleted the rows `gone`, and touched nothing else but the audit.
abbrev pub Deletes : Database → List MembershipRole → {A : Type 0} → A → Database → Type 0
Deletes db gone a db' =
    (i : List MembershipRole × List RoleAudit) × RemovedFrom db gone i × (db' ≡ relisted db i)

pub Removed-nil : (old : List MembershipRole) → Removed old [] old
Removed-nil old = record { was = λ _ m. m; not_gone = λ _ _ _ m. elim m [ ]; kept = λ _ m _. m }

Removed-cons :
    (old : List MembershipRole) (row : MembershipRole) (gone left : List MembershipRole)
    → Removed (delete_where (same_assignment row) old) gone left
    → Removed old (row ∷ gone) left
Removed-cons old row gone left r = record {
  was = λ a m. (delete-Memᴰ _ old (r.was a m)).0;
  not_gone = λ a b m k. not_gone_cons a b m k;
  kept =
      λ a m f. r.kept a (Memᴰ-delete _ old m (f row (Memᴰ.head refl))) (λ b k. f b (Memᴰ.tail k));
}
  where
    not_gone_cons :
        (a b : MembershipRole) → Memᴰ a left → Memᴰ b (row ∷ gone) → same_assignment b a ≡ false
    not_gone_cons a b m (Memᴰ.head e) =
        subst (λ x. same_assignment x a ≡ false) (sym e) (delete-Memᴰ _ old (r.was a m)).1
    not_gone_cons a b m (Memᴰ.tail k) = r.not_gone a b m k

-- One more row deleted, and one more audit row or none, before the rest of a loop.
Deletes-cons :
    (db : Database) (row : MembershipRole) (gone : List MembershipRole) (audits : List RoleAudit)
    (a : Unit {0}) (db' : Database)
    → Deletes
        (record db {
          membership_roles = delete_where (same_assignment row) db.membership_roles;
          role_audit = audits;
        })
        gone
        a
        db'
    → Deletes db (row ∷ gone) a db'
Deletes-cons db row gone audits a db' ((left, logged), r, e) =
    ((left, logged), Removed-cons db.membership_roles row gone left r, e)

pub remove_assignments-Ensures :
    (organization_id actor_id role_id : ℕ) (before : Permissions) (rows : List MembershipRole)
    (db : Database)
    → Ensures (Deletes db rows) (remove_assignments organization_id actor_id role_id before rows db)
unfolding remove_assignments
remove_assignments-Ensures organization_id actor_id role_id before [] db =
    Ensures-pure _ _ _ ((db.membership_roles, db.role_audit), Removed-nil _, refl)
remove_assignments-Ensures organization_id actor_id role_id before (row ∷ rows) db =
    Ensures-step _ _ _ _ _ _ (delete_assignment-Ensures row db) λ _ _.
      Ensures-step _ _ _ _ _ _ (audit-Ensures _ _ _ _ _ _ _ _) λ _ _.
        Ensures-weaken _ _ _ (λ a db' d. Deletes-cons db row rows db.role_audit a db' d)
          (remove_assignments-Ensures organization_id actor_id role_id before rows _)

pub delete_assignments-Ensures :
    (rows : List MembershipRole) (db : Database)
    → Ensures (Deletes db rows) (delete_assignments rows db)
unfolding delete_assignments
delete_assignments-Ensures [] db =
    Ensures-pure _ _ _ ((db.membership_roles, db.role_audit), Removed-nil _, refl)
delete_assignments-Ensures (row ∷ rows) db =
    Ensures-step _ _ _ _ _ _ (delete_assignment-Ensures row db) λ _ _.
      Ensures-weaken _ _ _ (λ a db' d. Deletes-cons db row rows db.role_audit a db' d)
        (delete_assignments-Ensures rows _)

pub strip_assignments-Ensures :
    (organization_id actor_id membership_id : ℕ) (authority : List String)
    (rows : List MembershipRole) (db : Database)
    → Ensures
        (Deletes db rows)
        (strip_assignments organization_id actor_id membership_id authority rows db)
unfolding strip_assignments
strip_assignments-Ensures organization_id actor_id membership_id authority [] db =
    Ensures-pure _ _ _ ((db.membership_roles, db.role_audit), Removed-nil _, refl)
strip_assignments-Ensures organization_id actor_id membership_id authority (row ∷ rows) db =
    Ensures-gets _ _ _ _ (
      Ensures-reads _ _ _ _ λ _ _.
        Ensures-step _ _ _ _ _ _ (delete_assignment-Ensures row db) λ _ _.
          Ensures-step _ _ _ _ _ _ (audit-Ensures _ _ _ _ _ _ _ _) λ _ _.
            Ensures-weaken _ _ _ (λ a db' d. Deletes-cons db row rows db.role_audit a db' d)
              (strip_assignments-Ensures organization_id actor_id membership_id authority rows _))
