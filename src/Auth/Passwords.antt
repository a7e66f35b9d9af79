-- ===== src/Auth/Passwords.antt =====
-- Accounts with a password (backend/src/domain/customerPassword.js, backend/src/commands/passwords.js).
-- The hash, its check, lower case and the hash that no password has are parameters.
pub mod Changes
use ghost_merchant.Base.{
  ℕ, suc, Bool, true, false, not, ◌&&◌, ◌||◌, Option, none, some, is_some, or_else, List, [], ◌∷◌,
  ◌++◌, length, all, any, leb, ltb, ◌==◌, if◌then◌else◌,
}
use ghost_merchant.Base.Text.{Text, text, text_eq}
use ghost_merchant.Domain.Email.{normalize_email, first_part}
use ghost_merchant.Domain.Wallets.{has_prefix}
use ghost_merchant.Db.Tx.{Result, ok, err, Error, password_error}
use ghost_merchant.Auth.Challenges.{User, Accounts, user_by_email, insert_user}
use ghost_merchant.Auth.Links.{find_user, update_user}

abbrev pub min_length : ℕ
min_length = 8

abbrev pub max_length : ℕ
max_length = 128

-- `COMMON`
pub common : List Text
common =
    text "password"
    ∷ text "password1"
    ∷ text "password123"
    ∷ text "12345678"
    ∷ text "123456789"
    ∷ text "1234567890"
    ∷ text "87654321"
    ∷ text "qwertyui"
    ∷ text "qwerty123"
    ∷ text "iloveyou"
    ∷ text "abcdefgh"
    ∷ text "abcd1234"
    ∷ text "11111111"
    ∷ text "00000000"
    ∷ text "gurikaabe"
    ∷ text "somalia1"
    ∷ text "mogadishu"
    ∷ text "muqdisho"
    ∷ []

-- `s.includes(p)`
pub includes : Text → Text → Bool
includes p [] = has_prefix p []
includes p (c ∷ s) = has_prefix p (c ∷ s) || includes p s

-- the characters that `.` does not match
abbrev is_line_end : ℕ → Bool
is_line_end c = c == 10 || c == 13 || c == 8232 || c == 8233

-- `/^(.)\1+$/`
pub is_repeated : Text → Bool
is_repeated (c ∷ d ∷ s) = not (is_line_end c) && all (λ x. x == c) (d ∷ s)
is_repeated _ = false

abbrev email_problem : Text → Text → Option Text
email_problem local lower =
    if leb 4 (length local) && includes local lower
    then some (text "don’t use your email in your password")
    else none

-- `passwordProblem`, of an account's email
unfoldable pub password_problem : (Text → Text) → Text → Text → Option Text
unfolding common includes is_repeated
password_problem to_lower password email =
    if ltb (length password) min_length
    then some (text "use at least 8 characters")
    else if ltb max_length (length password)
    then some (text "that password is too long")
    else if any (text_eq (to_lower password)) common
    then some (text "that password is too easy to guess")
    else if is_repeated password
    then some (text "that password is too easy to guess")
    else email_problem (first_part (to_lower email)) (to_lower password)

-- What the platform gives.
pub record Secrets : Type 0 where
  pub to_lower : Text → Text
  pub hash_secret : Text → Text
  pub verify_secret : Text → Text → Bool
  pub dummy_hash : Text

abbrev fail : {A : Type 0} → Text → ℕ → Accounts → Result A × Accounts
fail why status a = (err (password_error why status), a)

abbrev signed_up : Secrets → Text → Text → Accounts → User
signed_up s email password a = record {
  id = a.next_id;
  phone_number = none;
  email = some email;
  email_verified_at = none;
  password_hash = some (s.hash_secret password);
  password_reset_until = none;
}

unfoldable pub insert_signed_up :
    Secrets → Text → Text → Option User → Accounts → Result User × Accounts
insert_signed_up s email password (some taken) a =
    fail (text "an account with this email already exists — sign in instead") 409 a
insert_signed_up s email password none a =
    let (user, a') = insert_user (signed_up s email password a) a in (ok user, a')

abbrev sign_up_email : Secrets → Text → Text → Option Text → Accounts → Result User × Accounts
sign_up_email s email password (some problem) a = fail problem 400 a
sign_up_email s email password none a =
    insert_signed_up s email password (user_by_email email a.users) a

-- `signUpWithPassword`; the UNIQUE email is the test of the insertion
unfoldable pub sign_up_with_password : Secrets → Text → Text → Accounts → Result User × Accounts
sign_up_with_password s raw_email password a = elim (normalize_email s.to_lower raw_email) [
  | none ↦ fail (text "that does not look like an email address") 400 a
  | some email ↦ sign_up_email s email password (password_problem s.to_lower password email) a
]

abbrev pub lookup_email : Option Text → Accounts → Option User
lookup_email none a = none
lookup_email (some email) a = user_by_email email a.users

abbrev pub hash_of : Option User → Option Text
hash_of none = none
hash_of (some u) = u.password_hash

-- `h || DUMMY_HASH`
abbrev pub hash_or : Option Text → Text → Text
hash_or (some (c ∷ h)) d = c ∷ h
hash_or _ d = d

-- A hash that is there and is not empty.
abbrev pub is_hash : Option Text → Bool
is_hash (some (c ∷ h)) = true
is_hash _ = false

unfoldable pub check_password : Secrets → Text → Option User → Result User
check_password s password none = err (password_error (text "wrong email or password") 401)
check_password s password (some u) =
    if is_hash u.password_hash && s.verify_secret password (hash_or u.password_hash s.dummy_hash)
    then ok u
    else err (password_error (text "wrong email or password") 401)

-- `signInWithPassword`, which changes nothing
unfoldable pub sign_in_with_password : Secrets → Text → Text → Accounts → Result User
sign_in_with_password s raw_email password a =
    check_password s password (lookup_email (normalize_email s.to_lower raw_email) a)

-- `password_reset_until > now`
abbrev pub in_reset_window : Option ℕ → ℕ → Bool
in_reset_window none now = false
in_reset_window (some t) now = ltb now t

abbrev pub with_password : Secrets → Text → User → User
with_password s password u = record u {
  password_hash = some (s.hash_secret password);
  password_reset_until = none;
}

-- The last test of `setPassword`, and the update.
abbrev store_password : Secrets → ℕ → Text → Option Text → Accounts → Option Error × Accounts
store_password s user_id password (some problem) a = (some (password_error problem 400), a)
store_password s user_id password none a = (none, update_user user_id (with_password s password) a)

abbrev set_for_email :
    Secrets → ℕ → ℕ → Text → Text → User → Text → Accounts → Option Error × Accounts
set_for_email s now user_id current password u email a =
    if is_hash u.password_hash
      && not (in_reset_window u.password_reset_until now)
      && not (s.verify_secret current (hash_or u.password_hash []))
    then (some (password_error (text "your current password is wrong") 403), a)
    else store_password s user_id password (password_problem s.to_lower password email) a

unfoldable pub set_for :
    Secrets → ℕ → ℕ → Text → Text → Option User → Accounts → Option Error × Accounts
set_for s now user_id current password none a = (some (password_error (text "unauthorized") 401), a)
set_for s now user_id current password (some u) a = elim u.email [
  | none ↦ (
    some (password_error (text "add an email to your account first — you sign in with it") 400),
    a,
  )
  | some email ↦ set_for_email s now user_id current password u email a
]

-- `setPassword`
unfoldable pub set_password : Secrets → ℕ → ℕ → Text → Text → Accounts → Option Error × Accounts
set_password s now user_id current password a =
    set_for s now user_id current password (find_user user_id a.users) a
