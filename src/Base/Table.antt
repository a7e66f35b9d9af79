-- ===== src/Base/Table.antt =====
-- A database table as the list of its rows, found and updated by a numeric key.
use Prim.Native.Nat.{ℕ}
use mathlib.Core.Path.{◌≡◌, refl}
use mathlib.Core.Option.{Option, none, some}
use mathlib.Core.Option
use mathlib.Core.List.{List, [], ◌∷◌, ◌++◌}
use native.Mathlib.Omega.{arith}
use ghost_merchant.Base.Tests.{◌==◌, if◌then◌else◌}

module _ {ℓ} {A : Type ℓ} (key : A → ℕ) where
  -- `findUnique({ where: { key: k } })`
  abbrev pub find_by : ℕ → List A → Option A
  find_by k [] = none
  find_by k (x ∷ xs) = if key x == k then some x else find_by k xs

  -- `update({ where: { key: k }, data })`: the key is unique, so there is one row to change.
  abbrev pub update_by : ℕ → (A → A) → List A → List A
  update_by k f [] = []
  update_by k f (x ∷ xs) = if key x == k then f x ∷ xs else x ∷ update_by k f xs

  -- What a lookup finds after an update that leaves the keys alone.
  pub find_by-update_by :
      (j k : ℕ) (f : A → A) (xs : List A)
      → ((a : A) → key (f a) ≡ key a)
      → find_by j (update_by k f xs)
        ≡ (if k == j then Option.map f (find_by j xs) else find_by j xs)
  find_by-update_by j k f [] h = ground arith
  find_by-update_by j k f (x ∷ xs) h = ground (arith, h x, find_by-update_by j k f xs h)

  pub find_by_key : (k : ℕ) (xs : List A) (a : A) → find_by k xs ≡ some a → key a ≡ k
  find_by_key k [] a h = cc
  find_by_key k (x ∷ xs) a h = ground (arith, find_by_key k xs a)

  -- A row that is appended is found only where none stood before.
  pub find_by-append :
      (k : ℕ) (xs ys : List A)
      → find_by k (xs ++ ys) ≡ (elim (find_by k xs) [ none ↦ find_by k ys | some a ↦ some a ])
  find_by-append k [] ys = refl
  find_by-append k (x ∷ xs) ys = ground (arith, find_by-append k xs ys)
