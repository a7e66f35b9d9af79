-- ===== src/Staff/Operators/LastAdmin.antt =====
-- An active admin is left, whatever the operators do to one another's accounts.
use ghost_merchant.Base.{
  ℕ, ◌≡◌, ◌<◌, refl, sym, subst, Bool, true, false, Option, none, some, List, [], ◌∷◌, any, filter,
  length, arith, Option-cases, Bool-cases, inl, inr,
}
use ghost_merchant.Base.Text.{Text}
use ghost_merchant.Db.Tx.{Result, ok, err}
use ghost_merchant.Auth.Passwords.{Secrets}
use ghost_merchant.Staff.{Operator, Staff, Act, commit, transaction, ◌>>◌}
use ghost_merchant.Staff.Rules.{validate_password, Checked-cases}
use ghost_merchant.Staff.Operators.{
  find_operator, update_operators, update_operator, is_active_admin, is_other_admin, login_with,
  verify_operator_login, change_own_password, set_operator, assert_another_admin,
  set_operator_active, set_operator_admin, ensure_bootstrap_operator,
}

abbrev pub HasAdmin : Staff → Type 0
HasAdmin st = any is_active_admin st.operators ≡ true

others_are_admins :
    (id : ℕ) (os : List Operator)
    → 0 < length (filter (is_other_admin id) os)
    → any is_active_admin os ≡ true
others_are_admins id [] h = absurd (omega (arith, h))
others_are_admins id (o ∷ os) h = ground (arith, others_are_admins id os)

other_admin :
    (id : ℕ) (f : Operator → Operator) (os : List Operator)
    → 0 < length (filter (is_other_admin id) os)
    → any is_active_admin (update_operators id f os) ≡ true
other_admin id f [] h = absurd (omega (arith, h))
other_admin id f (o ∷ os) h = ground (arith, other_admin id f os, others_are_admins id os)

not_an_admin :
    (id : ℕ) (f : Operator → Operator) (os : List Operator) (o : Operator)
    → find_operator id os ≡ some o
    → is_active_admin o ≡ false
    → any is_active_admin os ≡ true
    → any is_active_admin (update_operators id f os) ≡ true
not_an_admin id f [] o h n a = ground arith
not_an_admin id f (x ∷ os) o h n a = ground (arith, not_an_admin id f os o)

still_admin :
    (id : ℕ) (f : Operator → Operator) (os : List Operator)
    → ((o : Operator) → is_active_admin o ≡ true → is_active_admin (f o) ≡ true)
    → any is_active_admin os ≡ true
    → any is_active_admin (update_operators id f os) ≡ true
still_admin id f [] keeps a = ground arith
still_admin id f (x ∷ os) keeps a = ground (arith, keeps x, still_admin id f os keeps)

-- An action after which an active admin is left, where there was one.
abbrev Keeps : {A : Type 0} → Act A → Type 0
Keeps {A} m = (st st' : Staff) (a : A) → m st ≡ ok (a, st') → HasAdmin st → HasAdmin st'

set_operator-Keeps :
    (id : ℕ) (f : Operator → Operator)
    → ((o : Operator) → is_active_admin o ≡ true → is_active_admin (f o) ≡ true)
    → Keeps (set_operator id f)
unfolding set_operator
set_operator-Keeps id f keeps st st' o e h = elim (Option-cases (find_operator id st.operators)) [
  | inl missing ↦ absurd (ground arith)
  | inr (x, found) ↦ ground (arith, still_admin id f st.operators keeps h)
]

-- Past the test, whatever is done to the account leaves an active admin.
protected-Keeps :
    (id : ℕ) (f : Operator → Operator) → Keeps (assert_another_admin id >> set_operator id f)
unfolding assert_another_admin set_operator
protected-Keeps id f st st' o e h = elim (Option-cases (find_operator id st.operators)) [
  | inl missing ↦ absurd (ground arith)
  | inr (x, found) ↦ elim (Bool-cases (is_active_admin x)) [
    | inl admin ↦ ground (arith, other_admin id f st.operators)
    | inr plain_one ↦ ground (arith, not_an_admin id f st.operators x found plain_one h)
  ]
]

set_operator_active-Keeps :
    (id : ℕ) (b : Bool) (acting : ℕ) → Keeps (set_operator_active id b acting)
unfolding set_operator_active
set_operator_active-Keeps id true acting st st' o e h =
    set_operator-Keeps id (λ x. record x { active = true }) (λ o a. ground arith) st st' o e h
set_operator_active-Keeps id false acting st st' o e h =
    protected-Keeps id (λ x. record x { active = false }) st st' o (ground arith) h

set_operator_admin-Keeps : (id : ℕ) (b : Bool) → Keeps (set_operator_admin id b)
unfolding set_operator_admin
set_operator_admin-Keeps id true st st' o e h =
    set_operator-Keeps id (λ x. record x { is_admin = true }) (λ o a. ground arith) st st' o e h
set_operator_admin-Keeps id false st st' o e h =
    protected-Keeps id (λ x. record x { is_admin = false }) st st' o e h

-- What a change of the password writes.
abbrev repassword : Secrets → Text → Operator → Operator
repassword s p x = record x { password_hash = s.hash_secret p; must_change_password = false }

change_own_password-writes :
    (s : Secrets) (id : ℕ) (current fresh : Text) (st st' : Staff) (u : Unit {0})
    → change_own_password s id current fresh st ≡ ok (u, st')
    → (p : Text) × (st' ≡ update_operator id (repassword s p) st)
unfolding change_own_password
change_own_password-writes s id current fresh st st' u e =
    elim (Option-cases (find_operator id st.operators)) [
      | inl missing ↦ absurd (ground arith)
      | inr (o, found) ↦ elim (Checked-cases (validate_password s.to_lower fresh o.username)) [
        | inl (why, bad) ↦ absurd (ground arith)
        | inr (p, good) ↦ (p, ground arith)
      ]
    ]

change_own_password-Keeps :
    (s : Secrets) (id : ℕ) (current fresh : Text) → Keeps (change_own_password s id current fresh)
change_own_password-Keeps s id current fresh st st' u e h =
    let (p, same) = change_own_password-writes s id current fresh st st' u e in
    subst HasAdmin (sym same) (still_admin id (repassword s p) st.operators (λ o a. ground arith) h)

login_with-HasAdmin :
    (s : Secrets) (now : ℕ) (password : Text) (o : Option Operator) (st : Staff)
    → HasAdmin st
    → HasAdmin (login_with s now password o st).1
unfolding login_with
login_with-HasAdmin s now password none st h = h
login_with-HasAdmin s now password (some o) st h = ground (
  arith,
  h,
  still_admin o.id (λ x. record x { last_login_at = some now }) st.operators (λ x a. ground arith)
      h,
)

ensure_bootstrap_operator-Keeps :
    (s : Secrets) (username password : Text) → Keeps (ensure_bootstrap_operator s username password)
unfolding ensure_bootstrap_operator
ensure_bootstrap_operator-Keeps s username password st st' u e h = ground arith

-- A call by which the operators' accounts change: with the account and what it is to be.
pub data Call : Type 0 where
  login : ℕ → Text → Text → Call
  change_password : ℕ → Text → Text → Call
  set_active : ℕ → Bool → ℕ → Call
  set_admin : ℕ → Bool → Call
  bootstrap : Text → Text → Call

unfoldable pub perform : Secrets → Call → Staff → Staff
perform s (login now username password) st = (verify_operator_login s now username password st).1
perform s (change_password id current fresh) st =
    (transaction (change_own_password s id current fresh) st).1
perform s (set_active id b acting) st = (transaction (set_operator_active id b acting) st).1
perform s (set_admin id b) st = (transaction (set_operator_admin id b) st).1
perform s (bootstrap username password) st =
    (transaction (ensure_bootstrap_operator s username password) st).1

unfoldable pub run : Secrets → List Call → Staff → Staff
run s [] st = st
run s (c ∷ calls) st = run s calls (perform s c st)

transaction-HasAdmin :
    {A : Type 0} (m : Act A) (st : Staff) → Keeps m → HasAdmin st → HasAdmin (transaction m st).1
unfolding transaction
transaction-HasAdmin {A} m st keeps h = committed (m st) (λ a st' e. keeps st st' a e h)
  where
    committed :
        (r : Result (A × Staff))
        → ((a : A) (st' : Staff) → r ≡ ok (a, st') → HasAdmin st')
        → HasAdmin (commit st r).1
    committed (ok (a, st')) k = k a st' refl
    committed (err e) k = h

perform-HasAdmin : (s : Secrets) (c : Call) (st : Staff) → HasAdmin st → HasAdmin (perform s c st)
unfolding perform verify_operator_login
perform-HasAdmin s (login now username password) st h = login_with-HasAdmin s now password _ st h
perform-HasAdmin s (change_password id current fresh) st h =
    transaction-HasAdmin (change_own_password s id current fresh) st
      (change_own_password-Keeps s id current fresh) h
perform-HasAdmin s (set_active id b acting) st h =
    transaction-HasAdmin (set_operator_active id b acting) st
      (set_operator_active-Keeps id b acting) h
perform-HasAdmin s (set_admin id b) st h =
    transaction-HasAdmin (set_operator_admin id b) st (set_operator_admin-Keeps id b) h
perform-HasAdmin s (bootstrap username password) st h =
    transaction-HasAdmin (ensure_bootstrap_operator s username password) st
      (ensure_bootstrap_operator-Keeps s username password) h

-- The shop is never without someone who can manage its staff: where there is an active admin, one
-- is left after any calls that log in, change passwords, switch accounts on and off, and give and
-- take admin rights, one after the other, whoever makes them.
pub run-HasAdmin :
    (s : Secrets) (calls : List Call) (st : Staff) → HasAdmin st → HasAdmin (run s calls st)
unfolding run
run-HasAdmin s [] st h = h
run-HasAdmin s (c ∷ calls) st h = run-HasAdmin s calls (perform s c st) (perform-HasAdmin s c st h)
