-- ===== src/Domain/Rotation.antt =====
-- Who gets the next paid order (backend/src/domain/dispatch.js).
pub mod Fair
use Prim.Native.Nat.{compare, Ordering}
use ghost_merchant.Base.{
  ℕ, Bool, true, false, Option, none, some, List, [], ◌∷◌, ◌&&◌, ltb, if◌then◌else◌, filter,
}
use ghost_merchant.Base.Text.{Text}

-- a row of the query in `dispatchOrder`
pub record Candidate : Type 0 where
  pub id : ℕ
  pub name : Text
  pub active : Bool
  pub ready : Bool
  pub active_orders : ℕ
  pub last_assigned_at : Option ℕ

-- `MAX_ACTIVE_PER_DRIVER`
abbrev pub max_active_per_driver : ℕ
max_active_per_driver = 3

abbrev pub is_eligible : ℕ → Candidate → Bool
is_eligible max_active d = d.active && d.ready && ltb d.active_orders max_active

-- Never assigned counts as having waited since 1970.
abbrev pub waited : Candidate → ℕ
waited d = elim d.last_assigned_at [ none ↦ 0 | some t ↦ t ]

-- `a || b` on the signs of two comparisons
abbrev then_by : Ordering → Ordering → Ordering
then_by Ordering.eq o = o
then_by o _ = o

-- The sign of the comparator that `sort` is given.
abbrev pub compare_drivers : Candidate → Candidate → Ordering
compare_drivers a b =
    then_by (compare a.active_orders b.active_orders)
      (then_by (compare (waited a) (waited b)) (compare a.id b.id))

-- `Array.prototype.sort` is stable: an element goes behind those that do not come after it.
unfoldable pub sort_insert : Candidate → List Candidate → List Candidate
sort_insert x [] = x ∷ []
sort_insert x (y ∷ ys) = elim (compare_drivers x y) [
  | Ordering.gt ↦ y ∷ sort_insert x ys
  | _ ↦ x ∷ y ∷ ys
]

unfoldable pub sort_drivers : List Candidate → List Candidate
unfolding sort_insert
sort_drivers [] = []
sort_drivers (x ∷ xs) = sort_insert x (sort_drivers xs)

unfoldable pub first : List Candidate → Option Candidate
first [] = none
first (x ∷ _) = some x

-- `pickDriver`
unfoldable pub pick_driver : List Candidate → ℕ → Option Candidate
unfolding sort_drivers first
pick_driver candidates max_active =
    first (sort_drivers (filter (is_eligible max_active) candidates))
