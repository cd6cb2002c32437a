-- ===== src/Auth/Services/Transaction.antt =====
-- auth/services.py: `transaction`.
use editingtab_platform_core.Errors.{
  Error, integrity_error, sqlalchemy_error, hashing_error, authentication_unavailable,
}
use editingtab_platform_core.Storage.Tables.{Database, Session}
use editingtab_platform_core.Storage.Exec.{Exec, transact}
use editingtab_platform_core.Storage.Ensures.{Ensures, Ensures-transact}

unfoldable pub translate : Error → Error
translate (integrity_error c) = authentication_unavailable
translate sqlalchemy_error = authentication_unavailable
translate hashing_error = authentication_unavailable
translate e = e

unfoldable pub transaction : {A : Type 0} → Exec Database A → Exec Session A
unfolding transact translate
transaction body = transact authentication_unavailable translate body

-- A transaction that returns has committed what its body left.
pub transaction-Ensures :
    {A : Type 0} (body : Exec Database A) (Q : A → Database → Type 0) (s : Session)
    → Ensures Q (body s.database)
    → Ensures (λ a s'. Q a s'.database) (transaction body s)
unfolding transaction
transaction-Ensures body Q s h = Ensures-transact authentication_unavailable translate body Q s h
