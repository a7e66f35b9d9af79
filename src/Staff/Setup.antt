-- ===== src/Staff/Setup.antt =====
-- Claiming an account with its setup code (`claimSetup` and the sweep of
-- backend/src/commands/staffAccounts.js).
pub mod Claims
use ghost_merchant.Base.{
  ℕ, ◌+◌, Bool, true, false, not, ◌&&◌, ◌||◌, Option, none, some, List, [], ◌∷◌, ◌==◌, filter, leb,
  ltb, if◌then◌else◌,
}
use ghost_merchant.Base.Table.{find_by, update_by}
use ghost_merchant.Base.Text.{Text, text, text_eq}
use ghost_merchant.Db.Tx.{Result, ok, err, Error, setup_invalid}
use ghost_merchant.Auth.Passwords.{Secrets}
use ghost_merchant.Staff.{Role, driver, operator, Operator, DriverAccount, Invite, Staff}
use ghost_merchant.Staff.Rules.{
  Checked, refused, accepted, validate_driver_pin, validate_password, setup_max_attempts,
}
use ghost_merchant.Staff.Operators.{find_operator, update_operator}
use ghost_merchant.Staff.Requests.{same_role}
use ghost_merchant.Staff.Accounts.{bad_request, phone_or_throw, update_driver}

abbrev pub is_for : Role → Text → Invite → Bool
is_for role phone i = same_role i.role role && text_eq i.phone phone

-- of two rows the one that was created later
abbrev pub later_of : Invite → Option Invite → Option Invite
later_of i none = some i
later_of i (some j) = if ltb j.created_at i.created_at then some i else some j

-- `WHERE role = … AND phone = … ORDER BY created_at DESC LIMIT 1`
abbrev pub newest : Role → Text → List Invite → Option Invite
newest role phone [] = none
newest role phone (i ∷ is) =
    let rest = newest role phone is in if is_for role phone i then later_of i rest else rest

abbrev pub delete_invite : ℕ → Staff → Staff
delete_invite id st = record st { invites = filter (λ i. not (i.id == id)) st.invites }

abbrev pub count_attempt : Invite → Staff → Staff
count_attempt i st = record st {
  invites = update_by (λ x. x.id) i.id (λ x. record x { attempts = i.attempts + 1 }) st.invites;
}

-- What the person gets back.
pub record Claimed : Type 0 where
  pub role : Role
  pub name : Text
  pub username : Option Text

-- What the transaction returns: `{ invalid }`, `{ weak }`, `{ out }`
pub data Outcome : Type 0 where
  invalid : Outcome
  weak : Text → Outcome
  claimed : Claimed → Outcome

abbrev find_driver : ℕ → List DriverAccount → Option DriverAccount
find_driver = find_by λ d. d.id

abbrev pub with_pin : Secrets → ℕ → Text → DriverAccount → DriverAccount
with_pin s now secret d = record d { pin_hash = s.hash_secret secret; pin_set_at = some now }

abbrev pub with_password : Secrets → Text → Operator → Operator
with_password s p o = record o { password_hash = s.hash_secret p; must_change_password = false }

-- the right code for a driver
unfoldable pub claim_driver :
    Secrets → ℕ → Text → Invite → Option DriverAccount → Staff → Outcome × Staff
claim_driver s now secret i none st = (invalid, st)
claim_driver s now secret i (some d) st =
    if d.active
    then (
      claimed (record { role = driver; name = d.name; username = none }),
      delete_invite i.id (update_driver d.id (with_pin s now secret) st),
    )
    else (invalid, st)

abbrev out_of : Operator → Claimed
out_of o = record { role = operator; name = o.display_name; username = some o.username }

unfoldable pub set_secret : Secrets → Invite → Operator → Checked → Staff → Outcome × Staff
set_secret s i o (refused why) st = (weak why, st)
set_secret s i o (accepted p) st =
    (claimed (out_of o), delete_invite i.id (update_operator o.id (with_password s p) st))

-- the right code for an operator
unfoldable pub claim_operator : Secrets → Text → Invite → Option Operator → Staff → Outcome × Staff
claim_operator s secret i none st = (invalid, st)
claim_operator s secret i (some o) st =
    if o.active
    then set_secret s i o (validate_password s.to_lower secret o.username) st
    else (invalid, st)

unfoldable pub claim_account : Secrets → ℕ → Text → Role → Invite → Staff → Outcome × Staff
claim_account s now secret driver i st =
    claim_driver s now secret i (find_driver i.account_id st.drivers) st
claim_account s now secret operator i st =
    claim_operator s secret i (find_operator i.account_id st.operators) st

-- a wrong code: the last try deletes the row
unfoldable pub miss : Invite → Staff → Outcome × Staff
miss i st =
    if leb setup_max_attempts (i.attempts + 1)
    then (invalid, delete_invite i.id st)
    else (invalid, count_attempt i st)

unfoldable pub claim_invite :
    Secrets → ℕ → Role → Text → Text → Option Invite → Staff → Outcome × Staff
claim_invite s now role code secret none st = (invalid, st)
claim_invite s now role code secret (some i) st =
    if leb i.expires_at now || leb setup_max_attempts i.attempts
    then (invalid, delete_invite i.id st)
    else if s.verify_secret code i.code_hash
    then claim_account s now secret role i st
    else miss i st

-- the outcomes that are thrown after the commit
unfoldable pub answer : Outcome × Staff → Result Claimed × Staff
answer (invalid, st) = (err setup_invalid, st)
answer (weak why, st) = (err (bad_request why), st)
answer (claimed c, st) = (ok c, st)

-- the test of the new secret, before the code is looked at
unfoldable pub secret_checked : Secrets → Role → Text → Checked
secret_checked s driver secret = validate_driver_pin secret
secret_checked s operator secret = validate_password s.to_lower secret []

unfoldable pub claim_checked :
    Secrets → ℕ → Role → Text → Text → Text → Checked → Staff → Result Claimed × Staff
claim_checked s now role phone code secret (refused why) st = (err (bad_request why), st)
claim_checked s now role phone code secret (accepted value) st =
    answer (claim_invite s now role code secret (newest role phone st.invites) st)

unfoldable pub claim_at :
    Secrets → ℕ → Role → Result Text → Text → Text → Staff → Result Claimed × Staff
claim_at s now role (err e) code secret st = (err e, st)
claim_at s now role (ok phone) code secret st =
    claim_checked s now role phone code secret (secret_checked s role secret) st

-- `claimSetup`
unfoldable pub claim_setup :
    Secrets → ℕ → Option Role → Text → Text → Text → Staff → Result Claimed × Staff
claim_setup s now none phone code secret st =
    (err (bad_request (text "role must be driver or operator")), st)
claim_setup s now (some role) phone code secret st =
    claim_at s now role (phone_or_throw phone) code secret st

-- `sweepExpiredSetupCodes`
unfoldable pub sweep_expired_setup_codes : ℕ → Staff → Staff
sweep_expired_setup_codes now st = record st {
  invites = filter (λ i. not (ltb i.expires_at now)) st.invites;
}
