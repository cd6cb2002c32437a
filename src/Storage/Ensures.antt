-- ===== src/Storage/Ensures.antt =====
-- What holds when a call returns: a postcondition, and its rule for each way to build a call.
use editingtab_platform_core.Shared.{
  ◌≡◌, refl, Bool, true, false, if◌then◌else◌, subst, sym, ap, arith,
}
use editingtab_platform_core.Errors.{Error}
use editingtab_platform_core.Outcome.{Outcome, ok, err}
use editingtab_platform_core.Storage.Tables.{Database, Session}
use editingtab_platform_core.Storage.Exec.{
  Exec, pure, reads, gets, modify, require, branch, continue, ◌>>=◌, settle, transact,
}

module _ {S A : Type 0} where
  -- If the call returns, then its result and the state after it satisfy `Q`.
  unfoldable pub Ensures : (A → S → Type 0) → Outcome A × S → Type 0
  Ensures Q (ok a, s) = Q a s
  Ensures Q (err e, s) = Unit

  pub Ensures-returned :
      (Q : A → S → Type 0) (m : Outcome A × S) {a : A} {s : S} → Ensures Q m → m ≡ (ok a, s) → Q a s
  unfolding Ensures
  Ensures-returned Q m h e = subst (Ensures Q) e h

  -- The same, where only the result is known.
  pub Ensures-ok :
      (Q : A → S → Type 0) (m : Outcome A × S) {a : A} → Ensures Q m → m.0 ≡ ok a → Q a m.1
  Ensures-ok Q m h e = Ensures-returned Q m h (ap (λ o. (o, m.1)) e)

  pub Ensures-weaken :
      (P Q : A → S → Type 0) (m : Outcome A × S)
      → ((a : A) (s : S) → P a s → Q a s)
      → Ensures P m
      → Ensures Q m
  unfolding Ensures
  Ensures-weaken P Q (ok a, s) f h = f a s h
  Ensures-weaken P Q (err e, s) f h = tt

  pub Ensures-both :
      (P Q : A → S → Type 0) (m : Outcome A × S)
      → Ensures P m
      → Ensures Q m
      → Ensures (λ a s. P a s × Q a s) m
  unfolding Ensures
  Ensures-both P Q (ok a, s) h k = (h, k)
  Ensures-both P Q (err e, s) h k = tt

  -- A call that returns satisfies its own equation.
  pub Ensures-self : (m : Outcome A × S) → Ensures (λ a s. m ≡ (ok a, s)) m
  unfolding Ensures
  Ensures-self (ok a, s) = refl
  Ensures-self (err e, s) = tt

module _ {S A B : Type 0} (Q : B → S → Type 0) where
  continue-Ensures :
      (P : A → S → Type 0) (f : A → Exec S B) (r : Outcome A × S)
      → Ensures P r
      → ((a : A) (s' : S) → P a s' → Ensures Q (f a s'))
      → Ensures Q (continue f r)
  unfolding Ensures
  continue-Ensures P f (ok a, s') h k = k a s' h
  continue-Ensures P f (err e, s') h k = tt

  pub Ensures-bind :
      (P : A → S → Type 0) (m : Exec S A) (f : A → Exec S B) (s : S)
      → Ensures P (m s)
      → ((a : A) (s' : S) → P a s' → Ensures Q (f a s'))
      → Ensures Q ((m >>= f) s)
  unfolding ◌>>=◌ Ensures
  Ensures-bind P m f s h k = continue-Ensures P f (m s) h k

  continue-step :
      (P : A → Type 0) (X : S) (f : A → Exec S B) (r : Outcome A × S)
      → Ensures (λ a s'. P a × (s' ≡ X)) r
      → ((a : A) → P a → Ensures Q (f a X))
      → Ensures Q (continue f r)
  unfolding Ensures
  continue-step P X f (ok a, s') h k = subst (λ x. Ensures Q (f a x)) (sym h.1) (k a h.0)
  continue-step P X f (err e, s') h k = tt

  -- A call that leaves exactly the state `X`.
  pub Ensures-step :
      (P : A → Type 0) (X : S) (m : Exec S A) (f : A → Exec S B) (s : S)
      → Ensures (λ a s'. P a × (s' ≡ X)) (m s)
      → ((a : A) → P a → Ensures Q (f a X))
      → Ensures Q ((m >>= f) s)
  unfolding ◌>>=◌
  Ensures-step P X m f s h k = continue-step P X f (m s) h k

  continue-family :
      {I : Type 0} (P : I → Type 0) (X : I → S) (f : A → Exec S B) (r : Outcome A × S)
      → Ensures (λ a s'. (i : I) × P i × (s' ≡ X i)) r
      → ((a : A) (i : I) → P i → Ensures Q (f a (X i)))
      → Ensures Q (continue f r)
  unfolding Ensures
  continue-family P X f (ok a, s') (i, p, e) k = subst (λ x. Ensures Q (f a x)) (sym e) (k a i p)
  continue-family P X f (err e, s') h k = tt

  -- A call that leaves one of the states `X i`.
  pub Ensures-family :
      {I : Type 0} (P : I → Type 0) (X : I → S) (m : Exec S A) (f : A → Exec S B) (s : S)
      → Ensures (λ a s'. (i : I) × P i × (s' ≡ X i)) (m s)
      → ((a : A) (i : I) → P i → Ensures Q (f a (X i)))
      → Ensures Q ((m >>= f) s)
  unfolding ◌>>=◌
  Ensures-family P X m f s h k = continue-family P X f (m s) h k

  -- A call that leaves one of the states `X i`, which its result tells.
  pub Ensures-rows :
      {I : Type 0} (P : A → I → Type 0) (X : I → S) (m : Exec S A) (f : A → Exec S B) (s : S)
      → Ensures (λ a s'. (i : I) × P a i × (s' ≡ X i)) (m s)
      → ((a : A) (i : I) → P a i → Ensures Q (f a (X i)))
      → Ensures Q ((m >>= f) s)
  Ensures-rows P X m f s h k =
      Ensures-bind (λ a s'. (i : _) × P a i × (s' ≡ X i)) m f s h
        λ a s' (i, p, e). subst (λ x. Ensures Q (f a x)) (sym e) (k a i p)

  continue-reads :
      (f : A → Exec S B) (r : Outcome A) (s : S)
      → ((a : A) → r ≡ ok a → Ensures Q (f a s))
      → Ensures Q (continue f (r, s))
  unfolding Ensures
  continue-reads f (ok a) s k = k a refl
  continue-reads f (err e) s k = tt

  pub Ensures-reads :
      (m : S → Outcome A) (f : A → Exec S B) (s : S)
      → ((a : A) → m s ≡ ok a → Ensures Q (f a s))
      → Ensures Q ((reads m >>= f) s)
  unfolding ◌>>=◌ Ensures
  Ensures-reads m f s k = continue-reads f (m s) s k

  pub Ensures-gets :
      (g : S → A) (f : A → Exec S B) (s : S) → Ensures Q (f (g s) s) → Ensures Q ((gets g >>= f) s)
  unfolding ◌>>=◌ Ensures
  Ensures-gets g f s h = h

module _ {S B : Type 0} (Q : B → S → Type 0) where
  pub Ensures-modify :
      (g : S → S) (f : Unit {0} → Exec S B) (s : S)
      → Ensures Q (f tt (g s))
      → Ensures Q ((modify g >>= f) s)
  unfolding ◌>>=◌ Ensures
  Ensures-modify g f s h = h

  pub Ensures-require :
      (t : Bool) (e : Error) (k : Unit {0} → Exec S B) (s : S)
      → (t ≡ true → Ensures Q (k tt s))
      → Ensures Q ((require t e >>= k) s)
  unfolding ◌>>=◌ Ensures
  Ensures-require true e k s h = h refl
  Ensures-require false e k s h = tt

  pub Ensures-branch :
      (t : Bool) (m n : Exec S B) (s : S)
      → (t ≡ true → Ensures Q (m s))
      → (t ≡ false → Ensures Q (n s))
      → Ensures Q (branch t m n s)
  unfolding branch Ensures
  Ensures-branch true m n s h k = h refl
  Ensures-branch false m n s h k = k refl

  pub Ensures-pure : (b : B) (s : S) → Q b s → Ensures Q (pure b s)
  unfolding pure Ensures
  Ensures-pure b s h = h

  pub Ensures-last : (g : S → B) (s : S) → Q (g s) s → Ensures Q (gets g s)
  unfolding gets Ensures
  Ensures-last g s h = h

  last_reads : (r : Outcome B) (s : S) → ((b : B) → r ≡ ok b → Q b s) → Ensures Q (r, s)
  unfolding Ensures
  last_reads (ok b) s h = h b refl
  last_reads (err e) s h = tt

  pub Ensures-reads_last :
      (m : S → Outcome B) (s : S) → ((b : B) → m s ≡ ok b → Q b s) → Ensures Q (reads m s)
  unfolding reads
  Ensures-reads_last m s h = last_reads (m s) s h

module _ {S : Type 0} where
  pub Ensures-modify_last :
      (Q : Unit {0} → S → Type 0) (g : S → S) (s : S) → Q tt (g s) → Ensures Q (modify g s)
  unfolding modify Ensures
  Ensures-modify_last Q g s h = h

module _ {A : Type 0} (busy : Error) (translate : Error → Error) (body : Exec Database A) where
  settle-Ensures :
      (Q : A → Database → Type 0) (t : Bool) (s : Session) (r : Outcome A × Database)
      → Ensures Q r
      → Ensures (λ a s'. Q a s'.database) (if t then (err busy, s) else settle translate s r)
  unfolding settle Ensures
  settle-Ensures Q true s r h = tt
  settle-Ensures Q false s (ok a, db) h = h
  settle-Ensures Q false s (err e, db) h = tt

  -- A transaction that returns has committed what its body left.
  pub Ensures-transact :
      (Q : A → Database → Type 0) (s : Session)
      → Ensures Q (body s.database)
      → Ensures (λ a s'. Q a s'.database) (transact busy translate body s)
  unfolding transact
  Ensures-transact Q s h = settle-Ensures Q s.in_transaction s (body s.database) h

  settle-same :
      (t : Bool) (s : Session) (r : Outcome A × Database) {e : Error} {s' : Session}
      → (if t then (err busy, s) else settle translate s r) ≡ (err e, s')
      → s' ≡ s
  unfolding settle
  settle-same true s r h = ground arith
  settle-same false s (ok a, db) h = cc
  settle-same false s (err e, db) h = ground arith

  -- A transaction that raises leaves the session as it was.
  pub transact_atomic :
      (s : Session) {e : Error} {s' : Session}
      → transact busy translate body s ≡ (err e, s')
      → s' ≡ s
  unfolding transact
  transact_atomic s h = settle-same s.in_transaction s (body s.database) h

  settle-committed :
      (Q : Database → Type 0) (t : Bool) (s : Session) (r : Outcome A × Database)
      → Q s.database
      → Ensures (λ _ db. Q db) r
      → Q (if t then (err busy, s) else settle translate s r).1.database
  unfolding settle Ensures
  settle-committed Q true s r h k = h
  settle-committed Q false s (ok a, db) h k = k
  settle-committed Q false s (err e, db) h k = h

  -- What held before holds after a transaction, returned or raised.
  pub transact-committed :
      (Q : Database → Type 0) (s : Session)
      → Q s.database
      → Ensures (λ _ db. Q db) (body s.database)
      → Q (transact busy translate body s).1.database
  unfolding transact
  transact-committed Q s h k = settle-committed Q s.in_transaction s (body s.database) h k
