-- ===== src/Auth/SignIn/Failure.antt =====
-- `login` of auth/services.py where it raises.
use editingtab_platform_core.Shared.{
  Bool, true, false, List, Text, ◌≡◌, refl, ap, ◌∙◌, if◌then◌else◌,
}
use editingtab_platform_core.Errors.{Error, authentication_unavailable, login_throttled}
use editingtab_platform_core.Outcome.{Outcome, ok, err}
use editingtab_platform_core.Config.{Settings}
use editingtab_platform_core.Auth.Models.{LoginThrottle}
use editingtab_platform_core.Auth.Security.{Hashing}
use editingtab_platform_core.Auth.Services.Attempts.{normalized_or_invalid, count_attempts}
use editingtab_platform_core.Auth.Services.Login.{login_body, login}
use editingtab_platform_core.Auth.Services.Transaction.{transaction, translate}
use editingtab_platform_core.Auth.SignIn.Counting.{count_attempts-Ensures}
use editingtab_platform_core.Storage.Tables.{Database, Session, Env}
use editingtab_platform_core.Storage.Exec.{Exec, transact, settle, require, reads, continue, ◌>>=◌}
use editingtab_platform_core.Storage.Ensures.{Ensures, transact_atomic}

module _ {A : Type 0} (busy : Error) (translate : Error → Error) (body : Exec Database A)
    (Q : Database → Type 0) where
  settle_session :
      (t : Bool) (s : Session) (r : Outcome A × Database)
      → Q s.database
      → Ensures (λ _ db. Q db) r
      → (db : Database) × Q db
        × ((if t then (err busy, s) else settle translate s r).1 ≡ record s { database = db })
  unfolding settle Ensures
  settle_session true s r q h = (s.database, q, refl)
  settle_session false s (ok a, db) q h = (db, h, refl)
  settle_session false s (err e, db) q h = (s.database, q, refl)

  -- A transaction changes the tables of a session alone.
  transact_session :
      (s : Session)
      → Q s.database
      → Ensures (λ _ db. Q db) (body s.database)
      → (db : Database) × Q db × ((transact busy translate body s).1 ≡ record s { database = db })
  unfolding transact
  transact_session s q h = settle_session s.in_transaction s (body s.database) q h

-- A check that raises leaves the session, and one that does not leaves it to the rest.
module _ {A B : Type 0} (s : Session) where
  reads_raises :
      (m : Session → Outcome A) (f : A → Exec Session B) (e : Error)
      → ((a : A) → (f a s).0 ≡ err e → (f a s).1 ≡ s)
      → ((reads m >>= f) s).0 ≡ err e
      → ((reads m >>= f) s).1 ≡ s
  unfolding ◌>>=◌
  reads_raises m f e k = go (m s)
    where
      go : (r : Outcome A) → (continue f (r, s)).0 ≡ err e → (continue f (r, s)).1 ≡ s
      go (ok a) h = k a h
      go (err x) h = refl

module _ {B : Type 0} (s : Session) where
  require_raises :
      (t : Bool) (x : Error) (f : Unit {0} → Exec Session B) (e : Error)
      → ((f tt s).0 ≡ err e → (f tt s).1 ≡ s)
      → ((require t x >>= f) s).0 ≡ err e
      → ((require t x >>= f) s).1 ≡ s
  unfolding ◌>>=◌
  require_raises true x f e k h = k h
  require_raises false x f e k h = refl

module _ {A B : Type 0} (m : Exec Session A) (f : A → Exec Session B) (s : Session) where
  -- Where the rest of a call leaves the session as it found it, the state is that after the first.
  bind_raises :
      (e : Error)
      → ((a : A) (s' : Session) → (f a s').0 ≡ err e → (f a s').1 ≡ s')
      → ((m >>= f) s).0 ≡ err e
      → ((m >>= f) s).1 ≡ (m s).1
  unfolding ◌>>=◌
  bind_raises e k = go (m s)
    where
      go : (r : Outcome A × Session) → (continue f r).0 ≡ err e → (continue f r).1 ≡ r.1
      go (ok a, s') h = k a s' h
      go (err x, s') h = refl

raising_transaction :
    {A : Type 0} (body : Exec Database A) (s : Session) {e : Error}
    → (transaction body s).0 ≡ err e
    → (transaction body s).1 ≡ s
unfolding transaction
raising_transaction body s h =
    transact_atomic authentication_unavailable translate body s
      (ap (λ o. (o, (transact authentication_unavailable translate body s).1)) h)

-- If `login` raises, then nothing but the throttle buckets has changed.
pub login_raises :
    (h : Hashing) (settings : Settings) (env : Env) (email password source : Text) (s : Session)
    {e : Error}
    → (login h settings env email password source s).0 ≡ err e
    → (buckets : List LoginThrottle) × ((login h settings env email password source s).1
        ≡ record s { database = record s.database { login_throttles = buckets } })
unfolding login transaction
login_raises h settings env email password source s {e} raised =
    let (db, (ts, _, same), committed) =
      transact_session authentication_unavailable translate
        (count_attempts h settings env.clock_timestamp "s" "a" source (normalized_or_invalid email))
        (λ db.
          (ts : List LoginThrottle) × Unit {0} × (db ≡ record s.database { login_throttles = ts }))
        s (s.database.login_throttles, tt, refl)
        (count_attempts-Ensures h settings env.clock_timestamp "s" "a" source
          (normalized_or_invalid email) s.database) in
    (
      ts,
      bind_raises _ _ s e
            (λ allowed s' r.
              require_raises s' allowed login_throttled _ e
                (λ r'.
                  reads_raises s' _ _ e
                    (λ _ r''.
                      raising_transaction
                        (login_body h settings env (normalized_or_invalid email) password) s' r'')
                    r')
                r)
            raised
          ∙ committed
          ∙ ap (λ db. record s { database = db }) same,
    )
