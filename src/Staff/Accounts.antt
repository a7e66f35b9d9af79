-- ===== src/Staff/Accounts.antt =====
-- New accounts and their setup codes (backend/src/commands/staffAccounts.js); claiming one stands in
-- Staff/Setup.antt. The drawn code, the secret that nobody knows, the hash and the senders are
-- parameters.
pub mod OneAccount
use ghost_merchant.Base.{
  ℕ, suc, ◌+◌, Bool, true, false, not, ◌&&◌, ◌||◌, Option, none, some, is_some, or_else, List, [],
  ◌∷◌, ◌++◌, ◌==◌, length, filter, ltb, if◌then◌else◌,
}
use ghost_merchant.Base.Table.{find_by, update_by}
use ghost_merchant.Base.Text.{Text, text, text_eq, trim}
use ghost_merchant.Domain.Phone.{Parsed, valid, parse_phone, phone_reason}
use ghost_merchant.Domain.Email.{normalize_email}
use ghost_merchant.Db.Tx.{Result, ok, err, Error, staff_error}
use ghost_merchant.Auth.Passwords.{Secrets}
use ghost_merchant.Staff.{
  Role, driver, operator, Operator, DriverAccount, Invite, AccessRequest, ReviewStatus, new_request,
  contacted, approved, declined, Staff, Act, ◌>>=◌, ◌>>◌, pure, gets, or_throw, of_result, throw_if,
  modify, transaction,
}
use ghost_merchant.Staff.Rules.{Checked, validate_username, setup_ttl_ms, generate_setup_code}
use ghost_merchant.Staff.Operators.{find_operator, find_username, update_operator, checked}
use ghost_merchant.Staff.Requests.{find_request, update_request, same_role}

abbrev pub bad_request : Text → Error
bad_request why = staff_error why 400

-- What a call takes from the runtime: the clock, the number drawn for the code, the secret that
-- nobody knows, and whether texts are sent at all.
pub record Draw : Type 0 where
  pub secrets : Secrets
  pub now : ℕ
  pub drawn : ℕ
  pub unclaimable : Text
  pub sms_available : Bool

-- `emailOrNull`
email_trimmed : (Text → Text) → Text → Text → Result (Option Text)
email_trimmed to_lower raw [] = ok none
email_trimmed to_lower raw (c ∷ s) = elim (normalize_email to_lower raw) [
  | none ↦ err (bad_request (text "that does not look like an email address"))
  | some email ↦ ok (some email)
]

unfoldable pub email_or_null : (Text → Text) → Option Text → Result (Option Text)
unfolding email_trimmed
email_or_null to_lower none = ok none
email_or_null to_lower (some raw) = email_trimmed to_lower raw (trim raw)

-- `phoneOrThrow`
unfoldable pub phone_or_throw : Text → Result Text
phone_or_throw raw = elim (parse_phone raw) [
  | valid p ↦ ok p.e164
  | refusal ↦ err (bad_request (text "Invalid phone number: " ++ phone_reason refusal))
]

abbrev pub same_account : Role → ℕ → Invite → Bool
same_account role id i = same_role i.role role && i.account_id == id

abbrev find_invite : Role → ℕ → List Invite → Option Invite
find_invite role id [] = none
find_invite role id (i ∷ is) = if same_account role id i then some i else find_invite role id is

abbrev update_invite : Role → ℕ → (Invite → Invite) → List Invite → List Invite
update_invite role id f [] = []
update_invite role id f (i ∷ is) =
    if same_account role id i then f i ∷ is else i ∷ update_invite role id f is

-- the row of a fresh code
abbrev invite_row : Draw → ℕ → Role → ℕ → Text → Option Text → Invite
invite_row d id role account phone by = record {
  id = id;
  role = role;
  account_id = account;
  phone = phone;
  code_hash = d.secrets.hash_secret (generate_setup_code d.drawn);
  expires_at = d.now + setup_ttl_ms;
  attempts = 0;
  created_by = by;
  created_at = d.now;
}

-- `issueCode`: an upsert by the account
unfoldable pub issue_code : Draw → Role → ℕ → Text → Option Text → Act Text
issue_code d role account phone by st = elim (find_invite role account st.invites) [
  | some there ↦ ok (
    generate_setup_code d.drawn,
    record st {
      invites =
          update_invite role account (λ i. invite_row d i.id role account phone by) st.invites;
    },
  )
  | none ↦ ok (
    generate_setup_code d.drawn,
    record st {
      invites = st.invites ++ invite_row d st.next_id role account phone by ∷ [];
      next_id = suc st.next_id;
    },
  )
]

-- The argument of `createStaffAccount`. A request id that is no number is `some none`.
pub record NewAccount : Type 0 where
  pub role : Option Role
  pub name : Text
  pub phone : Text
  pub username : Text
  pub email : Option Text
  pub created_by : Option Text
  pub request_id : Option (Option ℕ)

-- What an account is made of, typed in or taken from a request.
pub record Fields : Type 0 where
  pub role : Option Role
  pub name : Text
  pub phone : Text
  pub email : Option Text

is_approved : ReviewStatus → Bool
is_approved approved = true
is_approved _ = false

unfoldable pub of_request : Option Text → AccessRequest → Act Fields
unfolding is_approved
of_request typed r = do
  throw_if (not (is_approved r.status)) (staff_error (text "approve the request first") 409)
  throw_if (is_some r.account_created_at)
      (staff_error (text "an account was already created for this request") 409)
  pure (record {
    role = some r.role;
    name = r.name;
    phone = r.phone;
    email = elim typed [ some e ↦ some e | none ↦ r.email ];
  })

abbrev pub request_missing : Error
request_missing = staff_error (text "request not found") 404

unfoldable pub fields_of : NewAccount → Option Text → Option (Option ℕ) → Act Fields
fields_of a typed none st =
    ok (record { role = a.role; name = a.name; phone = a.phone; email = typed }, st)
fields_of a typed (some none) st = err request_missing
fields_of a typed (some (some id)) st = elim (find_request id st.requests) [
  | none ↦ err request_missing
  | some r ↦ of_request typed r st
]

abbrev find_msisdn : Text → List DriverAccount → Option DriverAccount
find_msisdn phone [] = none
find_msisdn phone (d ∷ ds) = if text_eq d.msisdn phone then some d else find_msisdn phone ds

-- `tx.driver.create`, which gives the id
unfoldable pub create_driver : Draw → Text → Text → Option Text → Act ℕ
create_driver d name phone email st = elim (find_msisdn phone st.drivers) [
  | some there ↦ err (
      staff_error
        (text "a driver with this number already exists — use \"Send setup code\" on them instead")
        409)
  | none ↦ ok (
    st.next_id,
    record st {
      drivers =
          st.drivers
          ++ record {
            id = st.next_id;
            name = name;
            msisdn = phone;
            pin_hash = d.secrets.hash_secret d.unclaimable;
            active = true;
            pin_set_at = none;
            email = email;
          }
            ∷ [];
      next_id = suc st.next_id;
    },
  )
]

-- `tx.operator.create`, under the unique index on the username
unfoldable pub create_operator : Draw → Text → Text → Text → Option Text → Option Text → Act ℕ
create_operator d username name phone email by st = elim (find_username username st.operators) [
  | some there ↦ err (staff_error (text "that username is already taken") 409)
  | none ↦ ok (
    st.next_id,
    record st {
      operators =
          st.operators
          ++ record {
            id = st.next_id;
            username = username;
            display_name = name;
            password_hash = d.secrets.hash_secret d.unclaimable;
            active = true;
            must_change_password = false;
            last_login_at = none;
            created_by = by;
            is_admin = false;
            phone = some phone;
            email = email;
          }
            ∷ [];
      next_id = suc st.next_id;
    },
  )
]

unfoldable pub create_account : Draw → Text → Option Text → Role → Text → Text → Option Text → Act ℕ
create_account d username by driver name phone email = create_driver d name phone email
create_account d username by operator name phone email = do
  u ← of_result (checked bad_request (validate_username d.secrets.to_lower username))
  create_operator d u name phone email by

-- the mark on the request that the account came from
unfoldable pub mark_request : ℕ → Option (Option ℕ) → Role → ℕ → Act (Unit {0})
mark_request now (some (some id)) role account st = ok (
  tt,
  update_request id
      (λ r. record r { account_created_at = some now; account_ref = some (role, account) }) st,
)
mark_request now _ role account st = ok (tt, st)

-- What the transaction gives: the account, and where its code goes.
pub record Created : Type 0 where
  pub role : Role
  pub account : ℕ
  pub phone : Text
  pub email : Option Text
  pub code : Text

-- the account, its code and the mark
unfoldable pub make_account : Draw → NewAccount → Fields → Role → Text → Act Created
make_account d a r role phone = do
  account ← create_account d a.username a.created_by role (trim r.name) phone r.email
  code ← issue_code d role account phone a.created_by
  mark_request d.now a.request_id role account
  pure (record { role = role; account = account; phone = phone; email = r.email; code = code })

-- the checks of the fields
unfoldable pub create_from : Draw → NewAccount → Fields → Act Created
create_from d a r = do
  throw_if (not (is_some r.email) && not d.sms_available)
      (bad_request (text "add an email — setup codes are sent by email"))
  role ← or_throw r.role (bad_request (text "role must be driver or operator"))
  throw_if (ltb (length (trim r.name)) 2 || ltb 80 (length (trim r.name)))
      (bad_request (text "name must be 2-80 characters"))
  phone ← of_result (phone_or_throw r.phone)
  make_account d a r role phone

-- the transaction of `createStaffAccount`
unfoldable pub create_body : Draw → NewAccount → Option Text → Act Created
create_body d a typed = do r ← fields_of a typed a.request_id; create_from d a r

unfoldable pub create_with :
    Draw → NewAccount → Result (Option Text) → Staff → Result Created × Staff
create_with d a (err e) st = (err e, st)
create_with d a (ok typed) st = transaction (create_body d a typed) st

-- `createStaffAccount`, up to the message, which goes out after the commit and changes no table
unfoldable pub create_staff_account : Draw → NewAccount → Staff → Result Created × Staff
create_staff_account d a st = create_with d a (email_or_null d.secrets.to_lower a.email) st

-- The account that a code is sent to again: its number, its email, and whether it is active.
pub record Target : Type 0 where
  pub phone : Option Text
  pub email : Option Text
  pub active : Bool

abbrev find_driver : ℕ → List DriverAccount → Option DriverAccount
find_driver = find_by λ d. d.id

abbrev pub update_driver : ℕ → (DriverAccount → DriverAccount) → Staff → Staff
update_driver id f st = record st { drivers = update_by (λ d. d.id) id f st.drivers }

driver_target : Option DriverAccount → Option Target
driver_target none = none
driver_target (some d) = some (record { phone = some d.msisdn; email = d.email; active = d.active })

operator_target : Option Operator → Option Target
operator_target none = none
operator_target (some o) = some (record { phone = o.phone; email = o.email; active = o.active })

unfoldable pub target_of : Role → ℕ → Staff → Option Target
unfolding driver_target operator_target
target_of driver id st = driver_target (find_driver id st.drivers)
target_of operator id st = operator_target (find_operator id st.operators)

-- the email that the admin gave, remembered
unfoldable pub remember_email : Role → ℕ → Option Text → Act (Unit {0})
remember_email role id none st = ok (tt, st)
remember_email driver id (some e) st =
    ok (tt, update_driver id (λ d. record d { email = some e }) st)
remember_email operator id (some e) st =
    ok (tt, update_operator id (λ o. record o { email = some e }) st)

-- `via === 'sms' ? null : newEmail || account.email || null`
abbrev email_to_use : Bool → Option Text → Option Text → Option Text
email_to_use true given known = none
email_to_use false (some e) known = some e
email_to_use false none known = known

-- What the transaction of `resendSetupCode` gives.
pub record Resent : Type 0 where
  pub phone : Text
  pub email : Option Text
  pub code : Text

-- the transaction of `resendSetupCode`
unfoldable pub resend_body : Draw → Role → ℕ → Option Text → Option Text → Bool → Act Resent
resend_body d role id by given via_sms = do
  found ← gets (target_of role id)
  account ← or_throw found (staff_error (text "account not found") 404)
  throw_if (not account.active) (staff_error (text "reactivate this account first") 409)
  phone ←
      or_throw account.phone (staff_error (text "no phone number on file for this operator") 409)
  remember_email role id given
  throw_if (not (is_some (email_to_use via_sms given account.email)) && not d.sms_available)
      (bad_request (text "add an email — setup codes are sent by email"))
  code ← issue_code d role id phone by
  pure (record { phone = phone; email = email_to_use via_sms given account.email; code = code })

unfoldable pub resend_with :
    Draw → Role → ℕ → Option Text → Result (Option Text) → Bool → Staff → Result Resent × Staff
resend_with d role id by (err e) via_sms st = (err e, st)
resend_with d role id by (ok given) via_sms st =
    transaction (resend_body d role id by given via_sms) st

-- `resendSetupCode`, up to the message
unfoldable pub resend_setup_code :
    Draw → Option Role → ℕ → Option Text → Option Text → Bool → Staff → Result Resent × Staff
resend_setup_code d none id by email via_sms st =
    (err (bad_request (text "role must be driver or operator")), st)
resend_setup_code d (some role) id by email via_sms st =
    resend_with d role id by (email_or_null d.secrets.to_lower email) via_sms st
