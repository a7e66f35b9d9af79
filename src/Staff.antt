-- ===== src/Staff.antt =====
-- Staff: the accounts of operators and drivers, their setup codes, and the requests to be given one
-- (backend/src/commands/operators.js, staffAccounts.js and accessRequests.js), over the tables of
-- backend/prisma/schema.prisma that they use.
mod Tests
pub mod Rules
pub mod Operators
pub mod Requests
pub mod Accounts
pub mod Setup
use ghost_merchant.Base.{ℕ, Bool, true, false, Option, none, some, List, ◌≡◌, refl, arith}
use ghost_merchant.Base.Text.{Text}
use ghost_merchant.Db.Tx.{Result, ok, err, Error}

-- the values of the `role` columns
pub data Role : Type 0 where
  driver operator : Role

-- model Operator
pub record Operator : Type 0 where
  pub id : ℕ
  pub username : Text
  pub display_name : Text
  pub password_hash : Text
  pub active : Bool
  pub must_change_password : Bool
  pub last_login_at : Option ℕ
  pub created_by : Option Text
  pub is_admin : Bool
  pub phone : Option Text
  pub email : Option Text

-- model Driver, as sign-in and onboarding read it
pub record DriverAccount : Type 0 where
  pub id : ℕ
  pub name : Text
  pub msisdn : Text
  pub pin_hash : Text
  pub active : Bool
  pub pin_set_at : Option ℕ
  pub email : Option Text

-- model StaffInvite
pub record Invite : Type 0 where
  pub id : ℕ
  pub role : Role
  pub account_id : ℕ
  pub phone : Text
  pub code_hash : Text
  pub expires_at : ℕ
  pub attempts : ℕ
  pub created_by : Option Text
  pub created_at : ℕ

-- the values of `status`
pub data ReviewStatus : Type 0 where
  new_request contacted approved declined : ReviewStatus

-- model AccessRequest
pub record AccessRequest : Type 0 where
  pub id : ℕ
  pub role : Role
  pub name : Text
  pub phone : Text
  pub email : Option Text
  pub message : Option Text
  pub status : ReviewStatus
  pub id_front_key : Option Text
  pub id_back_key : Option Text
  pub id_document_at : Option ℕ
  pub reviewed_at : Option ℕ
  pub reviewed_by : Option Text
  pub review_note : Option Text
  pub created_at : ℕ
  pub account_created_at : Option ℕ
  pub account_ref : Option (Role × ℕ)

-- The tables, and the keys in object storage. `next_id` is the sequence behind the generated keys.
pub record Staff : Type 0 where
  pub operators : List Operator
  pub drivers : List DriverAccount
  pub invites : List Invite
  pub requests : List AccessRequest
  pub objects : List Text
  pub next_id : ℕ

-- The body of a transaction on these tables.
abbrev pub Act : Type 0 → Type 0
Act A = Staff → Result (A × Staff)

infixl 5 ◌>>=◌ ◌>>◌
abbrev pub ◌>>=◌ : {A B : Type 0} → Act A → (A → Act B) → Act B
◌>>=◌ m f st = elim (m st) [ ok (a, st') ↦ f a st' | err e ↦ err e ]

abbrev pub ◌>>◌ : {A B : Type 0} → Act A → Act B → Act B
m >> k = m >>= λ _. k

module _ {A : Type 0} where
  abbrev pub pure : A → Act A
  pure a st = ok (a, st)

  abbrev pub gets : (Staff → A) → Act A
  gets f st = ok (f st, st)

  abbrev pub or_throw : Option A → Error → Act A
  or_throw none e st = err e
  or_throw (some a) e st = ok (a, st)

  abbrev pub of_result : Result A → Act A
  of_result (ok a) st = ok (a, st)
  of_result (err e) st = err e

abbrev pub throw_if : Bool → Error → Act (Unit {0})
throw_if true e st = err e
throw_if false e st = ok (tt, st)

abbrev pub modify : (Staff → Staff) → Act (Unit {0})
modify f st = ok (tt, f st)

-- `withTransaction`
abbrev pub commit : {A : Type 0} → Staff → Result (A × Staff) → Result A × Staff
commit st (ok (a, st')) = (ok a, st')
commit st (err e) = (err e, st)

unfoldable pub transaction : {A : Type 0} → Act A → Staff → Result A × Staff
transaction body st = commit st (body st)

-- A body that goes through has gone through each of its steps.
pub >>=-eq-ok :
    {A B : Type 0} (m : Act A) (f : A → Act B) (st : Staff) {b : B} {st' : Staff}
    → (m >>= f) st ≡ ok (b, st')
    → (a : A) × (st₁ : Staff) × (m st ≡ ok (a, st₁)) × (f a st₁ ≡ ok (b, st'))
>>=-eq-ok {A} {B} m f st {b} {st'} h = split (m st) refl h
  where
    split :
        (r : Result (A × Staff))
        → m st ≡ r
        → (elim r [ ok (a, st₁) ↦ f a st₁ | err e ↦ err e ]) ≡ ok (b, st')
        → (a : A) × (st₁ : Staff) × (m st ≡ ok (a, st₁)) × (f a st₁ ≡ ok (b, st'))
    split (ok (a, st₁)) e k = (a, st₁, e, k)
    split (err x) e k = cc

module _ {A : Type 0} (body : Act A) (st : Staff) where
  pub transaction-ok :
      (a : A) (st' : Staff) → transaction body st ≡ (ok a, st') → body st ≡ ok (a, st')
  unfolding transaction
  transaction-ok a st' h = ground arith

  pub transaction-err : (e : Error) → body st ≡ err e → transaction body st ≡ (err e, st)
  unfolding transaction
  transaction-err e h = ground arith
