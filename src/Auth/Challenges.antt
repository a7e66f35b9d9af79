-- ===== src/Auth/Challenges.antt =====
-- The codes that are out, and the accounts that they open (backend/src/commands/auth.js). The
-- hash and its check, and the senders, are parameters.
pub mod Guesses
pub mod Codes
use ghost_merchant.Base.{
  ℕ, suc, ◌+◌, ◌*◌, ◌-◌, ◌/◌, Bool, true, false, not, ◌||◌, Option, none, some, is_some, or_else,
  List, [], ◌∷◌, ◌++◌, filter, leb, ltb, ◌==◌, if◌then◌else◌,
}
use ghost_merchant.Base.Text.{Text, text, text_eq}
use ghost_merchant.Base.Table.{update_by}
use ghost_merchant.Domain.Phone.{normalize_msisdn}
use ghost_merchant.Domain.Email.{normalize_email}
use ghost_merchant.Db.Tx.{Result, ok, err, Error, plain, otp_cooldown, otp_invalid, auth_input}
use ghost_merchant.Auth.Otp.{
  otp_ttl_ms, max_attempts, resend_cooldown_ms, cooldown_remaining_ms, review_code_for, Review,
}

-- model OtpCode
pub record Challenge : Type 0 where
  pub key : Text
  pub code_hash : Text
  pub expires_at : ℕ
  pub attempts : ℕ
  pub last_sent_at : ℕ

-- model User, as far as signing in reads it
pub record User : Type 0 where
  pub id : ℕ
  pub phone_number : Option Text
  pub email : Option Text
  pub email_verified_at : Option ℕ
  pub password_hash : Option Text
  pub password_reset_until : Option ℕ

-- model EmailChallenge
pub record EmailChallenge : Type 0 where
  pub user_id : ℕ
  pub email : Text
  pub code_hash : Text
  pub expires_at : ℕ
  pub attempts : ℕ
  pub last_sent_at : ℕ

pub record Accounts : Type 0 where
  pub otp_codes : List Challenge
  pub email_challenges : List EmailChallenge
  pub users : List User
  pub next_id : ℕ

abbrev pub find_code : Text → List Challenge → Option Challenge
find_code key [] = none
find_code key (c ∷ cs) = if text_eq key c.key then some c else find_code key cs

abbrev pub delete_code : Text → List Challenge → List Challenge
delete_code key = filter λ c. not (text_eq key c.key)

abbrev pub update_code : Text → (Challenge → Challenge) → List Challenge → List Challenge
update_code key f [] = []
update_code key f (c ∷ cs) = if text_eq key c.key then f c ∷ cs else c ∷ update_code key f cs

abbrev pub delete_codes : Text → Accounts → Accounts
delete_codes key a = record a { otp_codes = delete_code key a.otp_codes }

-- `issueChallenge`, by the row of the key; `hashed` is the code's hash
unfoldable pub issue : Text → Text → ℕ → ℕ → Option Challenge → Accounts → Option Error × Accounts
issue key hashed cooldown_ms now none a = (
  none,
  record a {
    otp_codes =
        a.otp_codes
        ++ record {
          key = key;
          code_hash = hashed;
          expires_at = now + otp_ttl_ms;
          attempts = 0;
          last_sent_at = now;
        }
          ∷ [];
  },
)
issue key hashed cooldown_ms now (some c) a =
    if leb (c.last_sent_at + cooldown_ms) now
    then (
      none,
      record a {
        otp_codes =
            update_code key
              (λ x. record x {
                code_hash = hashed;
                expires_at = now + otp_ttl_ms;
                attempts = 0;
                last_sent_at = now;
              })
              a.otp_codes;
      },
    )
    else (some (otp_cooldown (cooldown_remaining_ms (some c.last_sent_at) now)), a)

-- `issueChallenge`, with its cooldown on
unfoldable pub issue_challenge : Text → Text → ℕ → Accounts → Option Error × Accounts
issue_challenge key hashed now a =
    issue key hashed resend_cooldown_ms now (find_code key a.otp_codes) a

-- The end of a verification: the account, or none where the code is refused.
abbrev pub Outcome : Type 0
Outcome = Option User × Accounts

unfoldable pub answer : Outcome → Result User × Accounts
answer (none, a) = (err otp_invalid, a)
answer (some user, a) = (ok user, a)

module _ (verify_code : Text → Text → Bool) where
  -- A code against the stored hash, with a try left.
  unfoldable pub try_code :
      Text → Text → (Accounts → User × Accounts) → Challenge → Accounts → Outcome
  try_code key submitted account c a =
      if verify_code submitted c.code_hash
      then (let (user, a') = account (delete_codes key a) in (some user, a'))
      else if leb max_attempts (c.attempts + 1)
      then (none, delete_codes key a)
      else (
        none,
        record a {
          otp_codes = update_code key (λ x. record x { attempts = c.attempts + 1 }) a.otp_codes;
        },
      )

  unfoldable pub consume_row :
      Text → Text → (Accounts → User × Accounts) → ℕ → Option Challenge → Accounts → Outcome
  consume_row key submitted account now none a = (none, a)
  consume_row key submitted account now (some c) a =
      if leb c.expires_at now || leb max_attempts c.attempts
      then (none, delete_codes key a)
      else try_code key submitted account c a

  -- The transaction of `consumeChallenge`: a refusal commits.
  unfoldable pub consume : Text → Text → (Accounts → User × Accounts) → ℕ → Accounts → Outcome
  consume key submitted account now a =
      consume_row key submitted account now (find_code key a.otp_codes) a

  -- `consumeChallenge`
  unfoldable pub consume_challenge :
      Text → Text → (Accounts → User × Accounts) → ℕ → Accounts → Result User × Accounts
  consume_challenge key submitted account now a = answer (consume key submitted account now a)

abbrev pub same_text : Text → Option Text → Bool
same_text t none = false
same_text t (some u) = text_eq t u

abbrev pub user_by_phone : Text → List User → Option User
user_by_phone phone [] = none
user_by_phone phone (u ∷ us) =
    if same_text phone u.phone_number then some u else user_by_phone phone us

abbrev pub user_by_email : Text → List User → Option User
user_by_email email [] = none
user_by_email email (u ∷ us) = if same_text email u.email then some u else user_by_email email us

abbrev pub insert_user : User → Accounts → User × Accounts
insert_user u a = (u, record a { users = a.users ++ u ∷ []; next_id = suc a.next_id })

unfoldable pub phone_account : Text → Option User → Accounts → User × Accounts
phone_account phone (some u) a = (u, a)
phone_account phone none a =
    insert_user
      (record {
        id = a.next_id;
        phone_number = some phone;
        email = none;
        email_verified_at = none;
        password_hash = none;
        password_reset_until = none;
      })
      a

-- The account of `verifyOtp`: an upsert by the number.
unfoldable pub by_phone : Text → Accounts → User × Accounts
by_phone phone a = phone_account phone (user_by_phone phone a.users) a

abbrev pub password_reset_window_ms : ℕ
password_reset_window_ms = 15 * 60 * 1000

-- The first proof of the address removes the password.
abbrev pub proved : ℕ → User → User
proved now u = record u {
  email_verified_at = some (or_else u.email_verified_at now);
  password_hash = if is_some u.email_verified_at then u.password_hash else none;
  password_reset_until = some (now + password_reset_window_ms);
}

unfoldable pub email_account : Text → ℕ → Option User → Accounts → User × Accounts
email_account email now (some u) a =
    (proved now u, record a { users = update_by (λ x. x.id) u.id (proved now) a.users })
email_account email now none a =
    insert_user
      (record {
        id = a.next_id;
        phone_number = none;
        email = some email;
        email_verified_at = some now;
        password_hash = none;
        password_reset_until = some (now + password_reset_window_ms);
      })
      a

-- The account of `verifyOtpByEmail`.
unfoldable pub by_email : Text → ℕ → Accounts → User × Accounts
by_email email now a = email_account email now (user_by_email email a.users) a

-- What a request answers.
pub record Issued : Type 0 where
  pub address : Text
  pub transport : Text
  pub expires_in_seconds : ℕ
  pub code : Text

abbrev pub issued : Text → Text → Text → Issued
issued address code transport = record {
  address = address;
  transport = transport;
  expires_in_seconds = (otp_ttl_ms + 999) / 1000;
  code = code;
}

-- A code that did not go out must not exist: the sender gives its transport, or throws.
unfoldable pub sent_or_deleted :
    Text → Text → Text → Result Text → Accounts → Result Issued × Accounts
sent_or_deleted key address code (ok transport) a = (ok (issued address code transport), a)
sent_or_deleted key address code (err e) a = (err e, delete_codes key a)

unfoldable pub send_issued :
    Text → Text → Text → Result Text → Option Error × Accounts → Result Issued × Accounts
send_issued key address code sent (some e, a) = (err e, a)
send_issued key address code sent (none, a) = sent_or_deleted key address code sent a

-- The hash of a code, and the senders of a code to an address.
pub record Senders : Type 0 where
  pub hash_code : Text → Text
  pub send_sms : Text → Text → Result Text
  pub send_email : Text → Text → Result Text

unfoldable pub phone_code : Option Text → Text → Text
phone_code review drawn = or_else review drawn

-- The review number gets no SMS.
unfoldable pub phone_transport : Option Text → Result Text → Result Text
phone_transport none sent = sent
phone_transport (some code) sent = ok (text "review")

abbrev pub bad_phone : Error
bad_phone = plain (text "Invalid phone number")

unfoldable pub request_to :
    Senders → Option Review → Text → ℕ → Option Text → Accounts → Result Issued × Accounts
request_to s review drawn now none a = (err bad_phone, a)
request_to s review drawn now (some phone) a =
    let known = review_code_for phone review in
    let code = phone_code known drawn in
    send_issued phone phone code (phone_transport known (s.send_sms phone code))
      (issue_challenge phone (s.hash_code code) now a)

-- `requestOtp`, with the code that was drawn
unfoldable pub request_otp :
    Senders → Option Review → Text → ℕ → Text → Accounts → Result Issued × Accounts
request_otp s review drawn now raw_phone a =
    request_to s review drawn now (normalize_msisdn raw_phone) a

unfoldable pub verify_to :
    (Text → Text → Bool) → Option Text → Text → ℕ → Accounts → Result User × Accounts
verify_to verify_code none submitted now a = (err bad_phone, a)
verify_to verify_code (some phone) submitted now a =
    consume_challenge verify_code phone submitted (by_phone phone) now a

-- `verifyOtp`
unfoldable pub verify_otp :
    (Text → Text → Bool) → Text → Text → ℕ → Accounts → Result User × Accounts
verify_otp verify_code raw_phone submitted now a =
    verify_to verify_code (normalize_msisdn raw_phone) submitted now a

-- `emailKey`, of the digest
abbrev pub email_key : (Text → Text) → Text → Text
email_key digest email = text "email:" ++ digest email

-- `requestOtpByEmail`
unfoldable pub request_otp_by_email :
    Senders
    → (Text → Text)
    → (Text → Text)
    → Bool
    → Text
    → ℕ
    → Text
    → Accounts
    → Result Issued × Accounts
request_otp_by_email s to_lower digest available drawn now raw_email a =
    elim (normalize_email to_lower raw_email) [
      | none ↦ (err (auth_input (text "that does not look like an email address")), a)
      | some email ↦
          if available
          then send_issued (email_key digest email) email drawn (s.send_email email drawn)
              (issue_challenge (email_key digest email) (s.hash_code drawn) now a)
          else (err (auth_input (text "email codes are not available")), a)
    ]

-- `verifyOtpByEmail`
unfoldable pub verify_otp_by_email :
    (Text → Text → Bool)
    → (Text → Text)
    → (Text → Text)
    → Text
    → Text
    → ℕ
    → Accounts
    → Result User × Accounts
verify_otp_by_email verify_code to_lower digest raw_email submitted now a =
    elim (normalize_email to_lower raw_email) [
      | none ↦ (err otp_invalid, a)
      | some email ↦
          consume_challenge verify_code (email_key digest email) submitted (by_email email now) now
            a
    ]

-- `sweepExpiredOtps`
unfoldable pub sweep_expired_otps : ℕ → Accounts → Accounts
sweep_expired_otps now a = record a {
  otp_codes = filter (λ c. not (ltb c.expires_at now)) a.otp_codes;
  email_challenges = filter (λ c. not (ltb c.expires_at now)) a.email_challenges;
}
