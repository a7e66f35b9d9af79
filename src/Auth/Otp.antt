-- ===== src/Auth/Otp.antt =====
-- The passcodes (backend/src/domain/otp.js).
use ghost_merchant.Base.{
  ℕ, ◌+◌, ◌-◌, ◌*◌, Bool, ◌&&◌, Option, none, some, length, all, not, ◌==◌, if◌then◌else◌,
}
use ghost_merchant.Base.Text.{Text, text_eq, is_digit}
use ghost_merchant.Base.Decimal.{decimal, pad_start}
use ghost_merchant.Domain.Phone.{valid, parse_phone}

abbrev pub otp_length : ℕ
otp_length = 6

abbrev pub otp_ttl_ms : ℕ
otp_ttl_ms = 5 * 60 * 1000

abbrev pub max_attempts : ℕ
max_attempts = 5

abbrev pub resend_cooldown_ms : ℕ
resend_cooldown_ms = 60 * 1000

-- `generateCode`, of the number that `crypto.randomInt` gives
unfoldable pub generate_code : ℕ → Text
generate_code n = pad_start otp_length (decimal n)

unfoldable pub is_well_formed_code : Text → Bool
is_well_formed_code code = all is_digit code && (length code == otp_length)

-- `cooldownRemainingMs`; the difference does not go below 0
unfoldable pub cooldown_remaining_ms : Option ℕ → ℕ → ℕ
cooldown_remaining_ms none now = 0
cooldown_remaining_ms (some last) now = last + resend_cooldown_ms - now

-- The configured review login.
pub record Review : Type 0 where
  pub phone : Text
  pub code : Text

-- `reviewCodeFor`; no phone is an empty one
unfoldable pub review_code_for : Text → Option Review → Option Text
review_code_for phone none = none
review_code_for phone (some review) =
    if length review.phone == 0
    then none
    else if not (is_well_formed_code review.code)
    then none
    else elim (parse_phone review.phone) [
      | valid p ↦ if text_eq p.e164 phone then some review.code else none
      | _ ↦ none
    ]
