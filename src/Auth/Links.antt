-- ===== src/Auth/Links.antt =====
-- An email on a phone account (backend/src/commands/auth.js): it is proved by a code, belongs to
-- one account, and is given up only by an account that has another way in.
pub mod WayIn
use ghost_merchant.Base.{
  ℕ, ◌+◌, Bool, true, false, not, ◌||◌, Option, none, some, is_some, List, [], ◌∷◌, ◌++◌, filter,
  leb, ◌==◌, if◌then◌else◌,
}
use ghost_merchant.Base.Text.{Text, text}
use ghost_merchant.Base.Table.{find_by, update_by}
use ghost_merchant.Domain.Email.{normalize_email}
use ghost_merchant.Db.Tx.{
  Result, ok, err, Error, otp_cooldown, otp_invalid, email_taken, auth_input,
}
use ghost_merchant.Auth.Otp.{otp_ttl_ms, max_attempts, resend_cooldown_ms, cooldown_remaining_ms}
use ghost_merchant.Auth.Challenges.{
  EmailChallenge, User, Accounts, user_by_email, Issued, issued, Senders,
}

abbrev pub find_link : ℕ → List EmailChallenge → Option EmailChallenge
find_link = find_by λ c. c.user_id

abbrev pub delete_link : ℕ → Accounts → Accounts
delete_link user_id a = record a {
  email_challenges = filter (λ c. not (c.user_id == user_id)) a.email_challenges;
}

abbrev pub find_user : ℕ → List User → Option User
find_user = find_by λ u. u.id

abbrev pub update_user : ℕ → (User → User) → Accounts → Accounts
update_user id f a = record a { users = update_by (λ u. u.id) id f a.users }

-- The conditional upsert of `requestEmailLink`, by the account's row.
unfoldable pub issue_link :
    ℕ → Text → Text → ℕ → Option EmailChallenge → Accounts → Option Error × Accounts
issue_link user_id email hashed now none a = (
  none,
  record a {
    email_challenges =
        a.email_challenges
        ++ record {
          user_id = user_id;
          email = email;
          code_hash = hashed;
          expires_at = now + otp_ttl_ms;
          attempts = 0;
          last_sent_at = now;
        }
          ∷ [];
  },
)
issue_link user_id email hashed now (some c) a =
    if leb (c.last_sent_at + resend_cooldown_ms) now
    then (
      none,
      record a {
        email_challenges =
            update_by (λ x. x.user_id) user_id
              (λ x. record x {
                email = email;
                code_hash = hashed;
                expires_at = now + otp_ttl_ms;
                attempts = 0;
                last_sent_at = now;
              })
              a.email_challenges;
      },
    )
    else (some (otp_cooldown (cooldown_remaining_ms (some c.last_sent_at) now)), a)

unfoldable pub send_link :
    ℕ → Text → Text → Result Text → Option Error × Accounts → Result Issued × Accounts
send_link user_id email code sent (some e, a) = (err e, a)
send_link user_id email code (ok transport) (none, a) = (ok (issued email code transport), a)
send_link user_id email code (err e) (none, a) = (err e, delete_link user_id a)

-- `requestEmailLink`, with the code that was drawn
unfoldable pub request_email_link :
    Senders → (Text → Text) → Bool → Text → ℕ → ℕ → Text → Accounts → Result Issued × Accounts
request_email_link s to_lower available drawn now user_id raw_email a =
    elim (normalize_email to_lower raw_email) [
      | none ↦ (err (auth_input (text "that does not look like an email address")), a)
      | some email ↦
          if available
          then send_link user_id email drawn (s.send_email email drawn) (
              issue_link user_id email (s.hash_code drawn) now
                (find_link user_id a.email_challenges) a)
          else (err (auth_input (text "email codes are not available")), a)
    ]

-- The end of the transaction of `verifyEmailLink`.
pub data Linked : Type 0 where
  linked : Text → Linked
  refused taken : Linked

-- `users.email = email`, proved now
abbrev pub with_email : Text → ℕ → User → User
with_email email now u = record u { email = some email; email_verified_at = some now }

abbrev pub without_email : User → User
without_email u = record u { email = none }

-- The code was right: the email moves to the account.
unfoldable pub take_email : ℕ → ℕ → Text → Option User → Accounts → Linked × Accounts
take_email now user_id email none a = (linked email, update_user user_id (with_email email now) a)
take_email now user_id email (some owner) a =
    if owner.id == user_id
    then (linked email, update_user user_id (with_email email now) a)
    else if is_some owner.phone_number
    then (
      linked email,
      update_user user_id (with_email email now) (update_user owner.id without_email a),
    )
    else (taken, a)

unfoldable pub try_link :
    (Text → Text → Bool) → ℕ → ℕ → Text → EmailChallenge → Accounts → Linked × Accounts
try_link verify_code now user_id submitted c a =
    if verify_code submitted c.code_hash
    then (let a' = delete_link user_id a in
        take_email now user_id c.email (user_by_email c.email a'.users) a')
    else if leb max_attempts (c.attempts + 1)
    then (refused, delete_link user_id a)
    else (
      refused,
      record a {
        email_challenges =
            update_by (λ x. x.user_id) user_id (λ x. record x { attempts = c.attempts + 1 })
              a.email_challenges;
      },
    )

unfoldable pub link_row :
    (Text → Text → Bool) → ℕ → ℕ → Text → Option EmailChallenge → Accounts → Linked × Accounts
link_row verify_code now user_id submitted none a = (refused, a)
link_row verify_code now user_id submitted (some c) a =
    if leb c.expires_at now || leb max_attempts c.attempts
    then (refused, delete_link user_id a)
    else try_link verify_code now user_id submitted c a

unfoldable pub report_link : Linked × Accounts → Result Text × Accounts
report_link (linked email, a) = (ok email, a)
report_link (refused, a) = (err otp_invalid, a)
report_link (taken, a) = (err email_taken, a)

-- `verifyEmailLink`
unfoldable pub verify_email_link :
    (Text → Text → Bool) → ℕ → ℕ → Text → Accounts → Result Text × Accounts
verify_email_link verify_code now user_id submitted a =
    report_link
      (link_row verify_code now user_id submitted (find_link user_id a.email_challenges) a)

abbrev pub has_phone : Option User → Bool
has_phone none = false
has_phone (some u) = is_some u.phone_number

-- `removeEmail`
unfoldable pub remove_email : ℕ → Accounts → Option Error × Accounts
remove_email user_id a =
    if has_phone (find_user user_id a.users)
    then (none, update_user user_id without_email (delete_link user_id a))
    else (some (auth_input (text "this email is how you sign in")), a)

-- `getCustomer`
abbrev pub get_customer : ℕ → Accounts → Option User
get_customer user_id a = find_user user_id a.users
