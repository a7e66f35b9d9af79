-- ===== src/Auth/Tests.antt =====
-- Signing in with the hash that is the code itself.
use Prim.{tt}
use ghost_merchant.Base.{ℕ, ◌+◌, ◌≡◌, refl, none, some, List, [], ◌∷◌, replicate, arith}
use ghost_merchant.Base.Text.{Text, text, text_eq, text_eq_refl, trim}
use ghost_merchant.Domain.Phone.{parse_phone, normalize_msisdn}
use ghost_merchant.Db.Tx.{ok, err, otp_invalid}
use ghost_merchant.Auth.Otp.{review_code_for}
use ghost_merchant.Auth.Challenges.{
  Challenge, User, Accounts, by_phone, phone_account, consume, consume_row, try_code, answer,
  consume_challenge, issue, issue_challenge, Senders, issued, phone_code, phone_transport,
  send_issued, sent_or_deleted, request_to, request_otp, verify_to, verify_otp,
}
use ghost_merchant.Auth.Challenges.Guesses.{guess_all, five_guesses, verify_otp_once}
use ghost_merchant.Auth.Challenges.Codes.{request_otp-verify}
use ghost_merchant.Auth.Passwords.{Secrets, set_password}
use ghost_merchant.Auth.Passwords.Changes.{Outcome, set_password-Outcome}
use ghost_merchant.Auth.Links.{verify_email_link}
use ghost_merchant.Auth.Links.WayIn.{Distinct, HasWayIn, verify_email_link-HasWayIn}

abbrev number : Text
number = text "+252612345678"

abbrev challenge : Challenge
challenge = record {
  key = number;
  code_hash = text "004291";
  expires_at = 300000;
  attempts = 0;
  last_sent_at = 0;
}

abbrev amina : User
amina = record {
  id = 4;
  phone_number = some number;
  email = some (text "a@b.so");
  email_verified_at = none;
  password_hash = none;
  password_reset_until = none;
}

abbrev accounts : Accounts
accounts = record {
  otp_codes = challenge ∷ [];
  email_challenges = [];
  users = amina ∷ [];
  next_id = 5;
}

abbrev guesses : List (Text × ℕ)
guesses = replicate 5 (text "111111", 9)

five_guesses_example :
    consume_challenge text_eq number
      (text "004291")
      (by_phone number)
      10
      (guess_all text_eq number (by_phone number) guesses accounts)
    ≡ (err otp_invalid, guess_all text_eq number (by_phone number) guesses accounts)
unfolding text text_eq
five_guesses_example =
    five_guesses text_eq number (by_phone number) guesses accounts challenge (text "004291") 10 refl
      refl (omega arith) (refl, (refl, (refl, (refl, (refl, tt)))))

abbrev signed_in : Accounts
signed_in = record accounts { otp_codes = [] }

verify_otp_once_example :
    verify_otp text_eq number (text "004291") 11 signed_in ≡ (err otp_invalid, signed_in)
unfolding verify_otp verify_to normalize_msisdn parse_phone text text_eq trim consume_challenge
    answer consume consume_row try_code by_phone phone_account
verify_otp_once_example =
    verify_otp_once text_eq number (text "004291") (text "004291") 10 11 accounts signed_in amina
      refl

abbrev sent_at : ℕ → Accounts
sent_at now = record accounts {
  otp_codes =
      record {
        key = number;
        code_hash = text "123456";
        expires_at = now + 300000;
        attempts = 0;
        last_sent_at = now;
      }
      ∷ [];
}

abbrev senders : Senders
senders = record {
  hash_code = λ c. c;
  send_sms = λ p c. ok (text "log");
  send_email = λ p c. ok (text "log");
}

request_otp-verify_example :
    (user : User) × (after : Accounts) × (verify_otp text_eq number
        (text "123456")
        80000
        (sent_at 70000)
      ≡ (ok user, after))
    × (user.phone_number ≡ normalize_msisdn number)
unfolding request_otp request_to review_code_for phone_code phone_transport send_issued
    sent_or_deleted normalize_msisdn parse_phone text text_eq trim issue_challenge issue
request_otp-verify_example =
    request_otp-verify senders text_eq none (text "123456") 70000 80000 number accounts
      (sent_at 70000) (issued number (text "123456") (text "log")) (λ c. text_eq_refl c) refl
      (omega arith)

verify_email_link-HasWayIn_example :
    HasWayIn (verify_email_link text_eq 9 4 (text "111111") accounts).1.users
unfolding Distinct HasWayIn
verify_email_link-HasWayIn_example =
    verify_email_link-HasWayIn text_eq 9 4 (text "111111") accounts (tt, tt) (refl, tt)

abbrev secrets : Secrets
secrets = record {
  to_lower = λ s. s;
  hash_secret = λ s. s;
  verify_secret = text_eq;
  dummy_hash = [];
}

-- "xyzxyzxyz"
abbrev password : Text
password = 120 ∷ 121 ∷ 122 ∷ 120 ∷ 121 ∷ 122 ∷ 120 ∷ 121 ∷ 122 ∷ []

set_password-Outcome_example :
    Outcome secrets 9 4 [] password accounts (set_password secrets 9 4 [] password accounts)
set_password-Outcome_example = set_password-Outcome secrets 9 4 [] password accounts
