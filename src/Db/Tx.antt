-- ===== src/Db/Tx.antt =====
-- Errors, and a transaction as a state monad that forgets the state when it throws
-- (backend/src/db/prisma.js).
use ghost_merchant.Base.{ℕ, Bool, true, false, Option, none, some, ◌≡◌, refl, ◌⊎◌, inl, inr, arith}
use ghost_merchant.Base.Text.{Text}
use ghost_merchant.Domain.StateMachine.{Status}
use ghost_merchant.Db.{Db}

-- What the commands throw. The class of the source is the constructor; the number is `status`.
pub data Error : Type 0 where
  -- `new Error(message)`
  plain : Text → Error
  illegal_transition : Status → Status → Error
  order_not_found : ℕ → Error
  payment_error refund_error password_error operator_error staff_error access_error :
      Text → ℕ → Error
  setup_invalid : Error
  -- the two refusals of `confirmPayment` that quote values: given and total amount, and the
  -- reference with the order that used it
  amount_mismatch : Text → ℕ → Error
  reference_used : Text → ℕ → Error
  -- with `triesLeft`
  proof_error : Text → ℕ → Option ℕ → Error
  otp_cooldown : ℕ → Error
  otp_invalid email_taken : Error
  auth_input : Text → Error
  -- raised by the database: P2002, P2003, a CHECK constraint, P2025, and code 57014
  unique_violation foreign_key_violation check_violation not_found query_canceled : Error
  write_unavailable : Error

pub data Result {ℓ} (A : Type ℓ) : Type ℓ where
  ok : A → Result A
  err : Error → Result A

pub Result-cases :
    {A : Type 0} (r : Result A) → ((a : A) × (r ≡ ok a)) ⊎ ((e : Error) × (r ≡ err e))
Result-cases (ok a) = inl (a, refl)
Result-cases (err e) = inr (e, refl)

-- The body of a transaction. A throw leaves it, so no state comes with an error.
abbrev pub Tx : Type 0 → Type 0
Tx A = Db → Result (A × Db)

infixl 5 ◌>>=◌ ◌>>◌
abbrev pub ◌>>=◌ : {A B : Type 0} → Tx A → (A → Tx B) → Tx B
◌>>=◌ m f db = elim (m db) [ ok (a, db') ↦ f a db' | err e ↦ err e ]

abbrev pub ◌>>◌ : {A B : Type 0} → Tx A → Tx B → Tx B
m >> k = m >>= λ _. k

module _ {A : Type 0} where
  abbrev pub pure : A → Tx A
  pure a db = ok (a, db)

  abbrev pub throw : Error → Tx A
  throw e db = err e

  abbrev pub gets : (Db → A) → Tx A
  gets f db = ok (f db, db)

  abbrev pub or_throw : Option A → Error → Tx A
  or_throw none e db = err e
  or_throw (some a) e db = ok (a, db)

  -- A step that can fail and touches no state.
  abbrev pub of_result : Result A → Tx A
  of_result (ok a) db = ok (a, db)
  of_result (err e) db = err e

abbrev pub throw_if : Bool → Error → Tx (Unit {0})
throw_if true e db = err e
throw_if false e db = ok (tt, db)

abbrev pub modify : (Db → Db) → Tx (Unit {0})
modify f db = ok (tt, f db)

-- Commit on success; on a throw the database is as it was.
abbrev pub commit : {A : Type 0} → Db → Result (A × Db) → Result A × Db
commit db (ok (a, db')) = (ok a, db')
commit db (err e) = (err e, db)

-- `withTransaction`
unfoldable pub with_transaction : {A : Type 0} → Tx A → Db → Result A × Db
with_transaction body db = commit db (body db)

-- A statement that runs into `statement_timeout` is reported as an unconfirmed write.
abbrev pub critical : Error → Error
critical query_canceled = write_unavailable
critical e = e

abbrev pub commit_critical : {A : Type 0} → Db → Result (A × Db) → Result A × Db
commit_critical db (ok (a, db')) = (ok a, db')
commit_critical db (err e) = (err (critical e), db)

-- `withCriticalTransaction`
unfoldable pub with_critical_transaction : {A : Type 0} → Tx A → Db → Result A × Db
with_critical_transaction body db = commit_critical db (body db)

-- A transaction that goes through has gone through each of its steps.
pub >>=-eq-ok :
    {A B : Type 0} (m : Tx A) (f : A → Tx B) (db : Db) {b : B} {db' : Db}
    → (m >>= f) db ≡ ok (b, db')
    → (a : A) × (db₁ : Db) × (m db ≡ ok (a, db₁)) × (f a db₁ ≡ ok (b, db'))
>>=-eq-ok {A} {B} m f db {b} {db'} h = split (m db) refl h
  where
    split :
        (r : Result (A × Db))
        → m db ≡ r
        → (elim r [ ok (a, db₁) ↦ f a db₁ | err e ↦ err e ]) ≡ ok (b, db')
        → (a : A) × (db₁ : Db) × (m db ≡ ok (a, db₁)) × (f a db₁ ≡ ok (b, db'))
    split (ok (a, db₁)) e k = (a, db₁, e, k)
    split (err x) e k = cc

-- A call that changed nothing and reported an error.
abbrev pub Refused : {A : Type 0} → Result A × Db → Db → Type 0
Refused {A} (r, db') db = (db' ≡ db) × (e : Error) × (r ≡ err e)

-- A call that went through.
abbrev pub Done : {A : Type 0} → Result A × Db → Type 0
Done {A} p = (a : A) × (db' : Db) × (p ≡ (ok a, db'))

pub throw_if-ok :
    {A : Type 0} (c : Bool) (e : Error) (m : Tx A) (db : Db) {r : A × Db}
    → (throw_if c e >> m) db ≡ ok r
    → (c ≡ false) × (m db ≡ ok r)
throw_if-ok true e m db h = cc
throw_if-ok false e m db h = (refl, h)

module _ {A : Type 0} (body : Tx A) (db : Db) where
  -- What a commit says of the body, and what a throw leaves.
  pub with_transaction-ok :
      (a : A) (db' : Db) → with_transaction body db ≡ (ok a, db') → body db ≡ ok (a, db')
  unfolding with_transaction
  with_transaction-ok a db' h = ground arith

  pub with_transaction-err : (e : Error) → body db ≡ err e → with_transaction body db ≡ (err e, db)
  unfolding with_transaction
  with_transaction-err e h = ground arith

  pub with_transaction_run :
      (a : A) (db' : Db) → body db ≡ ok (a, db') → with_transaction body db ≡ (ok a, db')
  unfolding with_transaction
  with_transaction_run a db' h = ground arith

  pub with_critical_transaction-ok :
      (a : A) (db' : Db) → with_critical_transaction body db ≡ (ok a, db') → body db ≡ ok (a, db')
  unfolding with_critical_transaction
  with_critical_transaction-ok a db' h = ground arith

  pub with_critical_transaction-err :
      (e : Error) → body db ≡ err e → with_critical_transaction body db ≡ (err (critical e), db)
  unfolding with_critical_transaction
  with_critical_transaction-err e h = ground arith

  pub with_critical_transaction_run :
      (a : A) (db' : Db) → body db ≡ ok (a, db') → with_critical_transaction body db ≡ (ok a, db')
  unfolding with_critical_transaction
  with_critical_transaction_run a db' h = ground arith

  pub with_critical_transaction-cases :
      Done (with_critical_transaction body db) ⊎ Refused (with_critical_transaction body db) db
  unfolding with_critical_transaction
  with_critical_transaction-cases = commit_cases (body db)
    where
      commit_cases :
          (r : Result (A × Db)) → Done (commit_critical db r) ⊎ Refused (commit_critical db r) db
      commit_cases (ok (a, db')) = inl (a, db', refl)
      commit_cases (err e) = inr (refl, critical e, refl)
