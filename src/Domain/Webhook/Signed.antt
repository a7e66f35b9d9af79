-- ===== src/Domain/Webhook/Signed.antt =====
-- What a callback that is let through has.
use ghost_merchant.Base.{ℕ, suc, ◌+◌, ◌*◌, ◌≤◌, ◌≡◌, ◌≢◌, true, some, [], map, all, length}
use ghost_merchant.Base.Int.{ℤ, pos, negsuc}
use ghost_merchant.Base.Text.{Text}
use ghost_merchant.Domain.Webhook.{Callback, is_hex, lower_hex, sign_payload}

-- A timestamp, in seconds, that is no more than 300 seconds before or after now, in milliseconds.
pub IsFresh : ℕ → ℤ → Type 0
IsFresh now (pos ts) = (now ≤ ts * 1000 + 300000) × (ts * 1000 ≤ now + 300000)
IsFresh now (negsuc n) = now + suc n * 1000 ≤ 300000

-- The parts of a signed callback.
pub record Signed (hmac : Text → Text → Text) (secret : Text) (callback : Callback) (now : ℕ)
    : Type 0 where
  pub configured : secret ≢ []
  pub ts : ℤ
  pub signature : Text
  pub stamped : callback.timestamp ≡ some ts
  pub fresh : IsFresh now ts
  pub given : callback.signature ≡ some signature
  pub hex : all is_hex signature ≡ true
  pub whole : length signature ≡ 64
  pub matches : map lower_hex signature ≡ sign_payload hmac secret ts callback.raw_body
