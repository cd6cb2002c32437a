-- ===== src/Storage/Exec.antt =====
-- Calls that read and write: the writes that precede a raise stay in the state, and a transaction
-- is what takes them back.
use editingtab_platform_core.Shared.{Bool, true, false, if◌then◌else◌}
use editingtab_platform_core.Errors.{Error}
use editingtab_platform_core.Outcome.{Outcome, ok, err}
use editingtab_platform_core.Storage.Tables.{Database, Session}

abbrev pub Exec : Type 0 → Type 0 → Type 0
Exec S A = S → Outcome A × S

module _ {S : Type 0} {A : Type 0} where
  unfoldable pub pure : A → Exec S A
  pure a s = (ok a, s)

  unfoldable pub raise : Error → Exec S A
  raise e s = (err e, s)

  -- A read-only call, which may raise.
  unfoldable pub reads : (S → Outcome A) → Exec S A
  reads f s = (f s, s)

  unfoldable pub gets : (S → A) → Exec S A
  gets f s = (ok (f s), s)

module _ {S : Type 0} where
  unfoldable pub modify : (S → S) → Exec S (Unit {0})
  modify f s = (ok tt, f s)

  unfoldable pub require : Bool → Error → Exec S (Unit {0})
  require t e s = (if t then ok tt else err e, s)

-- `if t: m` with an `else: n`, or with an early return in `m` and `n` the rest.
unfoldable pub branch : {S A : Type 0} → Bool → Exec S A → Exec S A → Exec S A
branch true m n = m
branch false m n = n

-- How a block goes on after a call: with its result, or not at all.
abbrev pub continue : {S A B : Type 0} → (A → Exec S B) → Outcome A × S → Outcome B × S
continue f (ok a, s) = f a s
continue f (err e, s) = (err e, s)

infixl 5 ◌>>=◌ ◌>>◌
-- Opening this opens the calls above too.
unfoldable pub ◌>>=◌ : {S A B : Type 0} → Exec S A → (A → Exec S B) → Exec S B
unfolding pure raise reads gets modify require branch
◌>>=◌ m f s = continue f (m s)

abbrev pub ◌>>◌ : {S A B : Type 0} → Exec S A → Exec S B → Exec S B
m >> k = m >>= λ _. k

-- The body's result committed, or its error translated and its writes rolled back.
unfoldable pub settle :
    {A : Type 0} → (Error → Error) → Session → Outcome A × Database → Outcome A × Session
settle translate s (ok a, db) = (ok a, record s { database = db })
settle translate s (err e, db) = (err (translate e), s)

-- `with transaction(session)`: refused on a session whose transaction is open.
unfoldable pub transact : {A : Type 0} → Error → (Error → Error) → Exec Database A → Exec Session A
unfolding settle
transact busy translate body s =
    if s.in_transaction then (err busy, s) else settle translate s (body s.database)
