-- ===== src/Authorization/Services/Transaction.antt =====
-- authorization/services.py: `transaction`.
use editingtab_platform_core.Errors.{
  Error, Constraint, conflict, storage_unavailable, integrity_error, sqlalchemy_error,
  uq_core_roles_name, core_membership_roles_pkey, uq_core_organizations_slug,
}
use editingtab_platform_core.Storage.Tables.{Database, Session}
use editingtab_platform_core.Storage.Exec.{Exec, transact}
use editingtab_platform_core.Storage.Ensures.{Ensures, Ensures-transact}

unfoldable pub translate_constraint : Constraint → Error
translate_constraint uq_core_roles_name = conflict
translate_constraint core_membership_roles_pkey = conflict
translate_constraint uq_core_organizations_slug = conflict
translate_constraint _ = storage_unavailable

unfoldable pub translate : Error → Error
unfolding translate_constraint
translate (integrity_error c) = translate_constraint c
translate sqlalchemy_error = storage_unavailable
translate e = e

unfoldable pub transaction : {A : Type 0} → Exec Database A → Exec Session A
unfolding transact translate
transaction body = transact storage_unavailable translate body

-- A transaction that returns has committed what its body left.
pub transaction-Ensures :
    {A : Type 0} (body : Exec Database A) (Q : A → Database → Type 0) (s : Session)
    → Ensures Q (body s.database)
    → Ensures (λ a s'. Q a s'.database) (transaction body s)
unfolding transaction
transaction-Ensures body Q s h = Ensures-transact storage_unavailable translate body Q s h
