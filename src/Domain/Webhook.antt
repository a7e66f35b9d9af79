-- ===== src/Domain/Webhook.antt =====
-- The signed callback of a payment provider (backend/src/domain/paymentWebhook.js). The keyed hash
-- is a parameter; the reading of the timestamp as a number is too.
pub mod Signed
use ghost_merchant.Base.{
  ℕ, suc, ◌+◌, ◌-◌, ◌*◌, Bool, true, false, not, ◌&&◌, ◌||◌, Option, none, some, List, [], ◌∷◌,
  ◌++◌, length, all, map, leb, ltb, ◌==◌, if◌then◌else◌,
}
use ghost_merchant.Base.Int.{ℤ, pos, negsuc}
use ghost_merchant.Base.Text.{Text, text, text_eq, is_digit}
use ghost_merchant.Base.Decimal.{decimal}

abbrev pub max_skew_seconds : ℕ
max_skew_seconds = 300

-- `[0-9a-f]` of either case, and the digit in lower case
abbrev pub is_hex : ℕ → Bool
is_hex c = is_digit c || (leb b'a' c && leb c b'f') || (leb b'A' c && leb c b'F')

abbrev pub lower_hex : ℕ → ℕ
lower_hex c = if leb b'A' c && leb c b'F' then c + 32 else c

-- `Math.abs(now / 1000 - ts) > MAX_SKEW_SECONDS`, in milliseconds
abbrev pub is_skewed : ℕ → ℤ → Bool
is_skewed now (pos ts) = ltb (max_skew_seconds * 1000) ((now - ts * 1000) + (ts * 1000 - now))
is_skewed now (negsuc n) = ltb (max_skew_seconds * 1000) (now + suc n * 1000)

-- a whole number as text
abbrev to_text : ℤ → Text
to_text (pos n) = decimal n
to_text (negsuc n) = b'-' ∷ decimal (suc n)

-- `signPayload`
unfoldable pub sign_payload : (Text → Text → Text) → Text → ℤ → Text → Text
sign_payload hmac secret ts raw_body = hmac secret (to_text ts ++ b'.' ∷ raw_body)

-- A callback as it comes in: a timestamp that is no whole number is `none`, and so is a
-- signature that is no string.
pub record Callback : Type 0 where
  pub timestamp : Option ℤ
  pub signature : Option Text
  pub raw_body : Text

abbrev pub signature_problem : (Text → Text → Text) → Text → ℤ → Text → Option Text → Option Text
signature_problem hmac secret ts raw_body none = some (text "missing signature")
signature_problem hmac secret ts raw_body (some s) =
    if not (all is_hex s && length s == 64)
    then some (text "missing signature")
    else if text_eq (map lower_hex s) (sign_payload hmac secret ts raw_body)
    then none
    else some (text "bad signature")

-- `verifyWebhook`
unfoldable pub verify_webhook : (Text → Text → Text) → Text → Callback → ℕ → Option Text
verify_webhook hmac [] callback now = some (text "webhook not configured")
verify_webhook hmac (c ∷ secret) callback now = elim callback.timestamp [
  | none ↦ some (text "missing timestamp")
  | some ts ↦
      if is_skewed now ts
      then some (text "timestamp outside the 5-minute window")
      else signature_problem hmac (c ∷ secret) ts callback.raw_body callback.signature
]
