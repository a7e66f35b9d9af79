-- ===== src/Base/Decimal.antt =====
-- Decimal numerals, and padding to a width.
use ghost_merchant.Base.Lists.{length, replicate, all, length-append, all-append}
use ghost_merchant.Base.Tests.{ltb, if◌then◌else◌}
use ghost_merchant.Base.Text.{Text, digit, is_digit}
use Prim.Native.Nat.{ℕ, zero, suc, ◌-◌, ◌/◌, ◌%◌, ◌^◌, ◌≤◌, ◌<◌}
use mathlib.Core.Path.{◌≡◌, refl}
use mathlib.Core.Bool.{true}
use mathlib.Core.List.{[], ◌∷◌, ◌++◌}
use native.Mathlib.Nat.{pow-suc}
use native.Mathlib.Omega.{arith}

decimal_fuel : ℕ → ℕ → Text
decimal_fuel zero n = []
decimal_fuel (suc f) n =
    let rest = decimal_fuel f (n / 10) in
    if ltb n 10 then digit n ∷ [] else rest ++ digit (n % 10) ∷ []

-- `String(n)`, of a non-negative integer: as much fuel as the number itself is always enough.
unfoldable pub decimal : ℕ → Text
unfolding decimal_fuel
decimal n = decimal_fuel (suc n) n

-- `s.padStart(n, '0')`
unfoldable pub pad_start : ℕ → Text → Text
pad_start n s = replicate (n - length s) b'0' ++ s

decimal_fuel-digits : (f n : ℕ) → all is_digit (decimal_fuel f n) ≡ true
unfolding decimal_fuel
decimal_fuel-digits zero n = refl
decimal_fuel-digits (suc f) n = ground (
  arith,
  decimal_fuel-digits f (n / 10),
  all-append is_digit (decimal_fuel f (n / 10)) (digit (n % 10) ∷ []),
)

length-decimal_fuel-le : (k f n : ℕ) → n < 10 ^ suc k → length (decimal_fuel f n) ≤ suc k
unfolding decimal_fuel
length-decimal_fuel-le k zero n h = omega arith
length-decimal_fuel-le zero (suc f) n h = ground arith
length-decimal_fuel-le (suc k) (suc f) n h = ground (
  arith,
  length-decimal_fuel-le k f (n / 10) (omega (arith, pow-suc 10 (suc k))),
  length-append (decimal_fuel f (n / 10)) (digit (n % 10) ∷ []),
)

length-replicate : (n c : ℕ) → length (replicate n c) ≡ n
length-replicate zero c = refl
length-replicate (suc n) c = omega (arith, length-replicate n c)

all-replicate : (n : ℕ) → all is_digit (replicate n b'0') ≡ true
all-replicate zero = refl
all-replicate (suc n) = all-replicate n

pub decimal-digits : (n : ℕ) → all is_digit (decimal n) ≡ true
unfolding decimal
decimal-digits n = decimal_fuel-digits (suc n) n

-- A number below 10 ^ k, padded to k places, is k digits.
pub length-pad_start : (k n : ℕ) → n < 10 ^ suc k → length (pad_start (suc k) (decimal n)) ≡ suc k
unfolding pad_start decimal
length-pad_start k n h = omega (
  arith,
  length-decimal_fuel-le k (suc n) n h,
  length-append (replicate (suc k - length (decimal_fuel (suc n) n)) b'0') (decimal_fuel (suc n) n),
  length-replicate (suc k - length (decimal_fuel (suc n) n)) b'0',
)

pub pad_start-digits : (k n : ℕ) → all is_digit (pad_start k (decimal n)) ≡ true
unfolding pad_start decimal
pad_start-digits k n = ground (
  arith,
  all-append is_digit (replicate (k - length (decimal_fuel (suc n) n)) b'0')
      (decimal_fuel (suc n) n),
  all-replicate (k - length (decimal_fuel (suc n) n)),
  decimal_fuel-digits (suc n) n,
)
