-- ===== src/Storage/Idle.antt =====
-- A transaction that returns was begun on an idle session, and leaves it idle.
use editingtab_platform_core.Shared.{◌≡◌, refl, Bool, true, false, if◌then◌else◌}
use editingtab_platform_core.Errors.{Error}
use editingtab_platform_core.Outcome.{Outcome, ok, err}
use editingtab_platform_core.Storage.Tables.{Database, Session}
use editingtab_platform_core.Storage.Exec.{Exec, settle, transact}
use editingtab_platform_core.Storage.Ensures.{Ensures}

module _ {A : Type 0} (busy : Error) (translate : Error → Error) (body : Exec Database A)
    (Q : A → Database → Type 0) where
  settle_idle :
      (t : Bool) (s : Session) (r : Outcome A × Database)
      → s.in_transaction ≡ t
      → Ensures Q r
      → Ensures
          (λ a s'. Q a s'.database × (s'.in_transaction ≡ false))
          (if t then (err busy, s) else settle translate s r)
  unfolding settle Ensures
  settle_idle true s r e h = tt
  settle_idle false s (ok a, db) e h = (h, e)
  settle_idle false s (err x, db) e h = tt

  pub Ensures-transact_idle :
      (s : Session)
      → Ensures Q (body s.database)
      → Ensures
          (λ a s'. Q a s'.database × (s'.in_transaction ≡ false))
          (transact busy translate body s)
  unfolding transact
  Ensures-transact_idle s h = settle_idle s.in_transaction s (body s.database) refl h
