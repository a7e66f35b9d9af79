-- ===== src/Staff/Operators.antt =====
-- The accounts of operators (backend/src/commands/operators.js). The hash of a secret, its check and
-- lower case are parameters.
pub mod LastAdmin
use ghost_merchant.Base.{
  ℕ, suc, Bool, true, false, not, ◌&&◌, Option, none, some, List, [], ◌∷◌, ◌++◌, ◌==◌, length,
  filter, if◌then◌else◌,
}
use ghost_merchant.Base.Table.{find_by, update_by}
use ghost_merchant.Base.Text.{Text, text, text_eq}
use ghost_merchant.Db.Tx.{Result, ok, err, Error, operator_error, plain}
use ghost_merchant.Auth.Passwords.{Secrets}
use ghost_merchant.Staff.{
  Operator, Staff, Act, ◌>>=◌, ◌>>◌, pure, gets, or_throw, of_result, throw_if, modify, transaction,
}
use ghost_merchant.Staff.Rules.{Checked, refused, accepted, normalize_username, validate_password}

abbrev pub find_operator : ℕ → List Operator → Option Operator
find_operator = find_by λ o. o.id

abbrev pub update_operators : ℕ → (Operator → Operator) → List Operator → List Operator
update_operators = update_by λ o. o.id

abbrev pub update_operator : ℕ → (Operator → Operator) → Staff → Staff
update_operator id f st = record st { operators = update_operators id f st.operators }

-- `findFirst({ where: { username, active: true } })`
abbrev pub find_active : Text → List Operator → Option Operator
find_active name [] = none
find_active name (o ∷ os) =
    if text_eq o.username name && o.active then some o else find_active name os

unfoldable pub login_with : Secrets → ℕ → Text → Option Operator → Staff → Option Operator × Staff
login_with s now password none st = (none, st)
login_with s now password (some o) st =
    if s.verify_secret password o.password_hash
    then (some o, update_operator o.id (λ x. record x { last_login_at = some now }) st)
    else (none, st)

-- `verifyOperatorLogin`
unfoldable pub verify_operator_login : Secrets → ℕ → Text → Text → Staff → Option Operator × Staff
verify_operator_login s now username password st =
    login_with s now password (find_active (normalize_username s.to_lower username) st.operators) st

-- the result of a check, as a step
abbrev pub checked : (Text → Error) → Checked → Result Text
checked complaint (refused why) = err (complaint why)
checked complaint (accepted value) = ok value

abbrev bad_request : Text → Error
bad_request why = operator_error why 400

-- `changeOwnPassword`
unfoldable pub change_own_password : Secrets → ℕ → Text → Text → Act (Unit {0})
change_own_password s id current fresh = do
  found ← gets (λ st. find_operator id st.operators)
  o ← or_throw found (operator_error (text "account not found") 404)
  throw_if (not (s.verify_secret current o.password_hash))
      (operator_error (text "current password is incorrect") 401)
  p ← of_result (checked bad_request (validate_password s.to_lower fresh o.username))
  throw_if (s.verify_secret p o.password_hash)
      (bad_request (text "new password must be different from the current one"))
  modify (
      update_operator id
        (λ x. record x { password_hash = s.hash_secret p; must_change_password = false }))
  pure tt

-- `update({ where: { id }, data })`, whose P2025 becomes a 404
unfoldable pub set_operator : ℕ → (Operator → Operator) → Act Operator
set_operator id f st = elim (find_operator id st.operators) [
  | none ↦ err (operator_error (text "account not found") 404)
  | some o ↦ ok (f o, update_operator id f st)
]

-- `{ active: true, id: { not: id } }`
abbrev pub is_other_active : ℕ → Operator → Bool
is_other_active id o = o.active && not (o.id == id)

abbrev pub is_active_admin : Operator → Bool
is_active_admin o = o.active && o.is_admin

-- `{ active: true, is_admin: true, id: { not: id } }`
abbrev pub is_other_admin : ℕ → Operator → Bool
is_other_admin id o = is_active_admin o && not (o.id == id)

abbrev is_protected : Option Operator → Bool
is_protected none = false
is_protected (some o) = is_active_admin o

-- `assertAnotherAdmin`
unfoldable pub assert_another_admin : ℕ → Act (Unit {0})
assert_another_admin id st =
    throw_if
      (is_protected (find_operator id st.operators)
        && length (filter (is_other_admin id) st.operators) == 0)
      (operator_error (text "cannot remove the last active admin") 409) st

-- `setOperatorActive`
unfoldable pub set_operator_active : ℕ → Bool → ℕ → Act Operator
set_operator_active id true acting = set_operator id (λ x. record x { active = true })
set_operator_active id false acting = do
  throw_if (id == acting) (operator_error (text "you cannot deactivate your own account") 400)
  others ← gets (λ st. length (filter (is_other_active id) st.operators))
  throw_if (others == 0) (operator_error (text "cannot deactivate the last active operator") 409)
  assert_another_admin id
  set_operator id (λ x. record x { active = false })

-- `setOperatorAdmin`
unfoldable pub set_operator_admin : ℕ → Bool → Act Operator
set_operator_admin id true = set_operator id (λ x. record x { is_admin = true })
set_operator_admin id false =
    assert_another_admin id >> set_operator id (λ x. record x { is_admin = false })

abbrev pub find_username : Text → List Operator → Option Operator
find_username name [] = none
find_username name (o ∷ os) = if text_eq o.username name then some o else find_username name os

-- the row of `ensureBootstrapOperator`
abbrev bootstrap_row : Secrets → Text → Text → ℕ → Operator
bootstrap_row s username password id = record {
  id = id;
  username = username;
  display_name = text "Bootstrap operator";
  password_hash = s.hash_secret password;
  active = true;
  must_change_password = true;
  last_login_at = none;
  created_by = some (text "system:bootstrap");
  is_admin = true;
  phone = none;
  email = none;
}

unfoldable pub bootstrap_with : Secrets → Text → Checked → Act (Option Operator)
bootstrap_with s username (refused why) st =
    err (operator_error (text "bootstrap operator: " ++ why) 400)
bootstrap_with s username (accepted password) st =
    let row = bootstrap_row s username password st.next_id in
    ok (some row, record st { operators = st.operators ++ row ∷ []; next_id = suc st.next_id })

-- `ensureBootstrapOperator`, with the name and the password of the configuration. The race that it
-- catches cannot come up in one transaction.
unfoldable pub ensure_bootstrap_operator : Secrets → Text → Text → Act (Option Operator)
ensure_bootstrap_operator s username password st = elim st.operators [
  | [] ↦ bootstrap_with s username (validate_password s.to_lower password username) st
  | o ∷ os ↦ ok (none, st)
]
