-- ===== src/Domain/Redact.antt =====
-- What may stand in a log (backend/src/domain/redact.js).
pub mod Hidden
use ghost_merchant.Base.{
  ℕ, ◌+◌, ◌-◌, Bool, true, false, ◌||◌, List, [], ◌∷◌, ◌++◌, length, take, drop, filter, replicate,
  leb, ◌==◌, if◌then◌else◌,
}
use ghost_merchant.Base.Text.{Text, text, is_digit}
use ghost_merchant.Domain.Wallets.{has_prefix}

-- `[\d+]`
abbrev pub is_phone_char : ℕ → Bool
is_phone_char c = is_digit c || c == b'+'

-- the bullet
abbrev pub bullet : ℕ
bullet = 8226

-- `digits.slice(-3)`
abbrev pub last_three : Text → Text
last_three s = drop (length s - 3) s

pub head_of : Text → Text
head_of digits = if has_prefix (text "+252") digits then text "+252" else take 3 digits

unfoldable pub mask_digits : Text → Text
mask_digits digits =
    if leb (length digits) 7
    then replicate (length digits) bullet
    else head_of digits
      ++ replicate (length digits - length (head_of digits) - length (last_three digits)) bullet
      ++ last_three digits

-- `maskPhone`, of a text
unfoldable pub mask_phone : Text → Text
mask_phone phone = mask_digits (filter is_phone_char phone)
