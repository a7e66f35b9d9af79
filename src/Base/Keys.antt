-- ===== src/Base/Keys.antt =====
-- Rows with distinct keys, and sums over rows.
use Prim.Native.Nat.{ℕ, zero, suc, ◌+◌}
use mathlib.Core.Path.{◌≡◌, sym, ◌∙◌}
use mathlib.Core.Logic.{◌≢◌}
use mathlib.Core.Bool.{Bool, true, false}
use mathlib.Core.Option.{some}
use mathlib.Core.List.{List, [], ◌∷◌, ◌++◌}
use native.Mathlib.Omega.{arith}
use ghost_merchant.Base.Tests.{◌==◌, if◌then◌else◌}
use ghost_merchant.Base.Lists.{All, filter, take}
use ghost_merchant.Base.Table.{find_by, update_by}

module _ {ℓ κ} {A : Type ℓ} (P : A → Type κ) where
  pub All-filter : (p : A → Bool) (xs : List A) → All P xs → All P (filter p xs)
  All-filter p [] h = tt
  All-filter p (x ∷ xs) (a, h) = keep (p x) (All-filter p xs h)
    where
      keep : (b : Bool) → All P (filter p xs) → All P (if b then x ∷ filter p xs else filter p xs)
      keep true rest = (a, rest)
      keep false rest = rest

  pub All-take : (n : ℕ) (xs : List A) → All P xs → All P (take n xs)
  All-take zero xs h = tt
  All-take (suc n) [] h = tt
  All-take (suc n) (x ∷ xs) (a, h) = (a, All-take n xs h)

  pub All-append : (xs ys : List A) → All P xs → All P ys → All P (xs ++ ys)
  All-append [] ys h k = k
  All-append (x ∷ xs) ys (a, h) k = (a, All-append xs ys h k)

  pub All-if : (b : Bool) (xs ys : List A) → All P xs → All P ys → All P (if b then xs else ys)
  All-if true xs ys h k = h
  All-if false xs ys h k = k

-- What every row has gives every row what follows from it.
pub All_mono {ℓ κ μ} :
    {A : Type ℓ} {P : A → Type κ} {Q : A → Type μ} (xs : List A)
    → ((a : A) → P a → Q a)
    → All P xs
    → All Q xs
All_mono [] f h = tt
All_mono (x ∷ xs) f (a, h) = (f x a, All_mono xs f h)

-- Two facts on every row give a third.
pub All-zip {ℓ κ μ ν} :
    {A : Type ℓ} {P : A → Type κ} {Q : A → Type μ} {R : A → Type ν} (xs : List A)
    → ((a : A) → P a → Q a → R a)
    → All P xs
    → All Q xs
    → All R xs
All-zip [] f h k = tt
All-zip (x ∷ xs) f (a, h) (b, k) = (f x a b, All-zip xs f h k)

-- The sum of a measure.
abbrev pub total {ℓ} : {A : Type ℓ} → (A → ℕ) → List A → ℕ
total w [] = 0
total w (x ∷ xs) = w x + total w xs

module _ {ℓ} {A : Type ℓ} (key : A → ℕ) where
  -- A primary key.
  abbrev pub Distinct : List A → Type 0
  Distinct [] = Unit {0}
  Distinct (x ∷ xs) = All (λ y. key x ≢ key y) xs × Distinct xs

  pub Distinct-filter : (p : A → Bool) (xs : List A) → Distinct xs → Distinct (filter p xs)
  Distinct-filter p [] h = tt
  Distinct-filter p (x ∷ xs) (away, h) = keep (p x) (Distinct-filter p xs h)
    where
      keep :
          (b : Bool)
          → Distinct (filter p xs)
          → Distinct (if b then x ∷ filter p xs else filter p xs)
      keep true rest = (All-filter (λ y. key x ≢ key y) p xs away, rest)
      keep false rest = rest

  pub Distinct-take : (n : ℕ) (xs : List A) → Distinct xs → Distinct (take n xs)
  Distinct-take zero xs h = tt
  Distinct-take (suc n) [] h = tt
  Distinct-take (suc n) (x ∷ xs) (away, h) =
      (All-take (λ y. key x ≢ key y) n xs away, Distinct-take n xs h)

  module _ (k : ℕ) (f : A → A) (same : (a : A) → key (f a) ≡ key a) where
    away-update_by :
        (j : ℕ) (xs : List A)
        → All (λ y. j ≢ key y) xs
        → All (λ y. j ≢ key y) (update_by key k f xs)
    away-update_by j [] h = tt
    away-update_by j (x ∷ xs) (a, h) = pick (key x == k) (away-update_by j xs h)
      where
        pick :
            (b : Bool)
            → All (λ y. j ≢ key y) (update_by key k f xs)
            → All (λ y. j ≢ key y) (if b then f x ∷ xs else x ∷ update_by key k f xs)
        pick true rest = ((λ e. a (e ∙ same x)), h)
        pick false rest = (a, rest)

    pub Distinct-update_by : (xs : List A) → Distinct xs → Distinct (update_by key k f xs)
    Distinct-update_by [] h = tt
    Distinct-update_by (x ∷ xs) (away, h) = pick (key x == k) (Distinct-update_by xs h)
      where
        pick :
            (b : Bool)
            → Distinct (update_by key k f xs)
            → Distinct (if b then f x ∷ xs else x ∷ update_by key k f xs)
        pick true rest =
            (All-zip {Q = λ y. key x ≢ key y} xs (λ y h _ e. h (sym (same x) ∙ e)) away away, h)
        pick false rest = (away-update_by (key x) xs away, rest)

  -- What an update does to a sum.
  pub total-update_by :
      (w : A → ℕ) (k : ℕ) (f : A → A) (xs : List A) (x : A)
      → find_by key k xs ≡ some x
      → total w (update_by key k f xs) + w x ≡ total w xs + w (f x)
  total-update_by w k f [] x h = cc
  total-update_by w k f (y ∷ xs) x h = ground (arith, total-update_by w k f xs x)

  -- Every row is found by its key.
  pub find_by_each : (xs : List A) → Distinct xs → All (λ y. find_by key (key y) xs ≡ some y) xs
  find_by_each [] h = tt
  find_by_each (x ∷ xs) (away, h) =
      (ground arith, All-zip xs (λ y n found. ground (arith, n, found)) away (find_by_each xs h))
