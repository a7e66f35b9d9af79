-- ===== src/Domain/Wallets/Dial.antt =====
-- What is dialled.
use ghost_merchant.Base.{
  ℕ, ◌/◌, ◌%◌, ◌≡◌, refl, Bool, true, false, not, none, [], ◌∷◌, length, drop, all, any, all-append,
  all-drop, ◌==◌, arith,
}
use ghost_merchant.Base.Text.{Text, text, is_digit}
use ghost_merchant.Base.Decimal.{decimal, decimal-digits, pad_start, pad_start-digits}
use ghost_merchant.Domain.Wallets.{
  Wallet, replace_first, template_problem, to_fixed, num_mark, amt_mark, build_wallet_uri,
}

abbrev pub no_hash : Text → Bool
no_hash = all λ c. not (c == b'#')

replace_first-no_hash :
    (p r s : Text) → no_hash r ≡ true → no_hash s ≡ true → no_hash (replace_first p r s) ≡ true
unfolding replace_first
replace_first-no_hash p r [] hr hs = refl
replace_first-no_hash p r (c ∷ s) hr hs = ground (
  arith,
  replace_first-no_hash p r s hr,
  all-append (λ c. not (c == b'#')) r (drop (length p) (c ∷ s)),
  all-drop (λ c. not (c == b'#')) (length p) (c ∷ s) hs,
)

no_hash-digits : (s : Text) → all is_digit s ≡ true → no_hash s ≡ true
no_hash-digits [] h = refl
no_hash-digits (c ∷ s) h = ground (arith, no_hash-digits s)

no_hash_of_any : (s : Text) → any (λ c. c == b'#') s ≡ false → no_hash s ≡ true
no_hash_of_any [] h = refl
no_hash_of_any (c ∷ s) h = ground (arith, no_hash_of_any s)

template_problem-no_hash : (t : Text) → template_problem t ≡ none → no_hash t ≡ true
unfolding template_problem
template_problem-no_hash t h = ground (arith, no_hash_of_any t)

to_fixed-no_hash : (cents : ℕ) → no_hash (to_fixed cents) ≡ true
unfolding to_fixed pad_start
to_fixed-no_hash cents = ground (
  arith,
  all-append (λ c. not (c == b'#')) (decimal (cents / 100))
      (b'.' ∷ pad_start 2 (decimal (cents % 100))),
  no_hash-digits (decimal (cents / 100)) (decimal-digits (cents / 100)),
  no_hash-digits (pad_start 2 (decimal (cents % 100))) (pad_start-digits 2 (cents % 100)),
)

-- A dial string never has a bare "#", at which Android would cut it off: where the template passed
-- its test and the merchant number is digits, the link for any amount is free of it.
pub build_wallet_uri-no_hash :
    (w : Wallet) (cents : ℕ)
    → template_problem w.template ≡ none
    → all is_digit w.merchant ≡ true
    → no_hash (build_wallet_uri w cents) ≡ true
unfolding build_wallet_uri text
build_wallet_uri-no_hash w cents fine digits =
    replace_first-no_hash amt_mark (to_fixed cents) (replace_first num_mark w.merchant w.template)
      (to_fixed-no_hash cents)
      (replace_first-no_hash num_mark w.merchant w.template (no_hash-digits w.merchant digits)
        (template_problem-no_hash w.template fine))
