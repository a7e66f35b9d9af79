-- ===== src/Commands/Dispatch/Capacity.antt =====
-- No driver is given more than MAX_ACTIVE_PER_DRIVER orders at a time.
use mathlib.Core.List.{Memᴰ}
use ghost_merchant.Base.{
  ℕ, suc, ◌&&◌, none, refl, ◌+◌, ◌<◌, ◌≤◌, ◌≡◌, ◌≢◌, sym, subst, Bool, true, false, Option, some,
  List, [], ◌∷◌, arith, ◌==◌, if◌then◌else◌, inl, inr,
}
use ghost_merchant.Base.Table.{update_by}
use ghost_merchant.Base.Text.{Text}
use ghost_merchant.Domain.StateMachine.{
  Status, pending_payment, paid_unassigned, dispatched, in_transit, delivered, failed_refund,
  can_transition,
}
use ghost_merchant.Domain.Rotation.{Candidate, pick_driver, max_active_per_driver}
use ghost_merchant.Domain.Rotation.Fair.{pick_driver-Qualifies}
use ghost_merchant.Db.{Db, Order, Driver}
use ghost_merchant.Db.Rows.{find_order, order_of}
use ghost_merchant.Db.Tx.{ok}
use ghost_merchant.Commands.Orders.{transition_order}
use ghost_merchant.Commands.Orders.Transition.{Transits, moved, transition_order-Transits}
use ghost_merchant.Commands.Dispatch.{dispatch_order, active_orders, candidate_of, candidates_of}
use ghost_merchant.Commands.Dispatch.Assign.{Assigned, with_driver, dispatch_order-cases}

-- A driver has the goods of an order, or is to fetch them.
abbrev is_in_hand : Status → Bool
is_in_hand pending_payment = false
is_in_hand paid_unassigned = false
is_in_hand dispatched = true
is_in_hand in_transit = true
is_in_hand delivered = false
is_in_hand failed_refund = false

-- The orders that a driver carries.
abbrev pub carried : ℕ → List Order → ℕ
carried d [] = 0
carried d (o ∷ os) = elim o.driver_id [
  | none ↦ carried d os
  | some e ↦ if d == e && is_in_hand o.status then suc (carried d os) else carried d os
]

-- No driver carries more than three orders.
abbrev pub IsLight : Db → Type 0
IsLight db = (d : ℕ) → carried d db.orders ≤ 3

-- The join of the dispatcher counts the orders that a driver carries.
pub active_orders-carried : (d : ℕ) (os : List Order) → active_orders d os ≡ carried d os
active_orders-carried d [] = refl
active_orders-carried d (o ∷ os) = ground (arith, active_orders-carried d os)

-- No driver carries more than the cap, as the dispatcher counts.
abbrev pub IsCapped : Db → Type 0
IsCapped db = (d : ℕ) → active_orders d db.orders ≤ max_active_per_driver

candidates_of-counts :
    (os : List Order) (ds : List Driver) (c : Candidate)
    → Memᴰ c (candidates_of os ds)
    → c.active_orders ≡ active_orders c.id os
unfolding candidates_of candidate_of
candidates_of-counts os [] c m = elim m [ ]
candidates_of-counts os (x ∷ ds) c m = split x.active (candidates_of-counts os ds c) m
  where
    listed :
        (Memᴰ c (candidates_of os ds) → c.active_orders ≡ active_orders c.id os)
        → Memᴰ c (candidate_of os x ∷ candidates_of os ds)
        → c.active_orders ≡ active_orders c.id os
    listed rest (Memᴰ.head e) = ground arith
    listed rest (Memᴰ.tail t) = rest t

    split :
        (b : Bool)
        → (Memᴰ c (candidates_of os ds) → c.active_orders ≡ active_orders c.id os)
        → Memᴰ c (if b then candidate_of os x ∷ candidates_of os ds else candidates_of os ds)
        → c.active_orders ≡ active_orders c.id os
    split true rest n = listed rest n
    split false rest n = rest n

-- The driver that is picked has a free place.
picked_free :
    (os : List Order) (ds : List Driver) (d : Candidate)
    → pick_driver (candidates_of os ds) max_active_per_driver ≡ some d
    → active_orders d.id os < max_active_per_driver
picked_free os ds d picked =
    let (listed, q) = pick_driver-Qualifies (candidates_of os ds) max_active_per_driver d picked in
    ground (arith, candidates_of-counts os ds d listed, q.room)

active_orders-assigned :
    (now id : ℕ) (d : Candidate) (e : ℕ) (os : List Order) (before : Order)
    → find_order id os ≡ some before
    → before.status ≡ paid_unassigned
    → active_orders e (
        update_by
          (λ r. r.id)
          id
          (moved now dispatched)
          (update_by (λ r. r.id) id (with_driver now d) os))
      ≡ active_orders e os + (if e == d.id then 1 else 0)
active_orders-assigned now id d e [] before h s = cc
active_orders-assigned now id d e (o ∷ os) before h s =
    ground (arith, active_orders-assigned now id d e os before)

-- An assignment gives the driver one order more, of at most three, and no one else any.
pub Assigned-IsCapped :
    (now id : ℕ) (d : Candidate) (before : Order) (db db' : Db)
    → order_of id db ≡ some before
    → Assigned now id d before db db'
    → IsCapped db
    → IsCapped db'
Assigned-IsCapped now id d before db db' found a h e = ground (
  arith,
  h e,
  picked_free db.orders db.drivers d a.picked,
  active_orders-assigned now id d e db.orders before found a.waiting,
)

active_orders-moved :
    (now id : ℕ) (to : Status) (e : ℕ) (os : List Order) (before : Order)
    → find_order id os ≡ some before
    → can_transition before.status to ≡ true
    → to ≢ dispatched
    → active_orders e (update_by (λ r. r.id) id (moved now to) os) ≤ active_orders e os
unfolding can_transition
active_orders-moved now id to e [] before h c n = cc
active_orders-moved now id to e (o ∷ os) before h c n =
    ground (arith, active_orders-moved now id to e os before)

-- Any other transition gives no driver an order.
pub Transits-IsCapped :
    (now id : ℕ) (to : Status) (actor : Text) (why : Option Text) (before : Order) (db db' : Db)
    → order_of id db ≡ some before
    → to ≢ dispatched
    → Transits now id to actor why before db db'
    → IsCapped db
    → IsCapped db'
Transits-IsCapped now id to actor why before db db' found other t h e =
    ground (arith, h e, active_orders-moved now id to e db.orders before found t.legal other)

-- Where no driver carries more than three orders, none does after `dispatchOrder` went through,
-- whether it assigned the order or found nobody.
pub dispatch_order-IsCapped :
    (now id : ℕ) (db db' : Db) (r : Option Candidate)
    → dispatch_order now id db ≡ ok (r, db')
    → IsCapped db
    → IsCapped db'
dispatch_order-IsCapped now id db db' r h e = elim (dispatch_order-cases now id db db' r h) [
  | inl (_, same) ↦ subst IsCapped (sym same) e
  | inr (d, before, _, found, a) ↦ Assigned-IsCapped now id d before db db' found a e
]

-- Where no driver carries more than three orders, none does after a transition to any status but
-- DISPATCHED.
pub transition_order-IsCapped :
    (now id : ℕ) (to : Status) (actor : Text) (why : Option Text) (db db' : Db) (o before : Order)
    → order_of id db ≡ some before
    → to ≢ dispatched
    → transition_order now id to actor why db ≡ ok (o, db')
    → IsCapped db
    → IsCapped db'
transition_order-IsCapped now id to actor why db db' o before found other h e =
    Transits-IsCapped now id to actor why before db db' found other
      (transition_order-Transits now id to actor why db db' before o found h).0 e
