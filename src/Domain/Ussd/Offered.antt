-- ===== src/Domain/Ussd/Offered.antt =====
-- Which wallets are offered.
use ghost_merchant.Base.{ℕ, ◌+◌, ◌≡◌, Bool, not, List, [], ◌∷◌, ◌++◌, length, filter, arith}
use ghost_merchant.Base.Text.{Text, text_eq}
use ghost_merchant.Domain.Wallets.{Wallet}
use ghost_merchant.Domain.Ussd.{for_customer}

-- How many wallets pass a test.
abbrev pub count : (Wallet → Bool) → List Wallet → ℕ
count p ws = length (filter p ws)

count-append :
    (p : Wallet → Bool) (xs ys : List Wallet) → count p (xs ++ ys) ≡ count p xs + count p ys
count-append p [] ys = omega arith
count-append p (x ∷ xs) ys = ground (arith, count-append p xs ys)

count-split :
    (p own : Wallet → Bool) (ws : List Wallet)
    → count p (filter own ws) + count p (filter (λ w. not (own w)) ws) ≡ count p ws
count-split p own [] = omega arith
count-split p own (w ∷ ws) = ground (arith, count-split p own ws)

-- The order in which wallets are offered loses none and repeats none: by any test, as many wallets
-- pass it as among those that are set up.
pub for_customer-count :
    (p : Wallet → Bool) (wallets : List Wallet) (operator : Text)
    → count p (for_customer wallets operator) ≡ count p wallets
unfolding for_customer
for_customer-count p wallets operator =
    let own : Wallet → Bool = λ w. text_eq w.network operator in
    omega (
      arith,
      count-append p (filter own wallets) (filter (λ w. not (own w)) wallets),
      count-split p own wallets,
    )
