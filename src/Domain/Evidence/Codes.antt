-- ===== src/Domain/Evidence/Codes.antt =====
-- Every code that is issued is a code that is accepted, and the flags of a delivery.
use ghost_merchant.Base.{ℕ, ◌<◌, ◌≡◌, true, arith}
use ghost_merchant.Base.Text.{text_eq_refl}
use ghost_merchant.Base.Decimal.{length-pad_start, pad_start-digits}
use ghost_merchant.Domain.Evidence.{new_handoff_code, is_handoff_code, handoff_matches}

new_handoff_code-code : (n : ℕ) → n < 10000 → is_handoff_code (new_handoff_code n) ≡ true
unfolding is_handoff_code new_handoff_code
new_handoff_code-code n h = ground (arith, length-pad_start 3 n h, pad_start-digits 4 n)

-- Whatever number below 10000 is drawn, the code made of it is four digits and matches itself.
pub handoff_matches-new :
    (n : ℕ) → n < 10000 → handoff_matches (new_handoff_code n) (new_handoff_code n) ≡ true
unfolding handoff_matches
handoff_matches-new n h = ground (arith, new_handoff_code-code n, text_eq_refl (new_handoff_code n))
