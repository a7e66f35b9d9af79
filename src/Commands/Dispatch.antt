-- ===== src/Commands/Dispatch.antt =====
-- Automatic dispatch (backend/src/commands/dispatch.js). Transactions run one after the other
-- here, which is what the advisory lock ensures between two dispatchers.
pub mod Assign
pub mod Capacity
use ghost_merchant.Base.{
  ℕ, suc, ◌+◌, Bool, true, false, Option, none, some, List, [], ◌∷◌, ◌++◌, ◌==◌, ◌&&◌,
  if◌then◌else◌, is_some, filter, take,
}
use ghost_merchant.Base.Decimal.{decimal}
use ghost_merchant.Base.Table.{update_by}
use ghost_merchant.Base.Text.{Text, text}
use ghost_merchant.Domain.StateMachine.{
  Status, pending_payment, paid_unassigned, dispatched, in_transit, delivered, failed_refund,
  same_status,
}
use ghost_merchant.Domain.Rotation.{Candidate, pick_driver, max_active_per_driver}
use ghost_merchant.Db.{Db, Order, Driver, Detail}
use ghost_merchant.Db.Tx.{
  Tx, Result, ok, err, ◌>>=◌, ◌>>◌, pure, gets, modify, with_critical_transaction,
}
use ghost_merchant.Db.Rows.{order_of, update_order, audit}
use ghost_merchant.Commands.Orders.{transition_order}

-- `o.status IN ('DISPATCHED', 'IN_TRANSIT')`
abbrev pub is_active_job : Status → Bool
is_active_job dispatched = true
is_active_job in_transit = true
is_active_job pending_payment = false
is_active_job paid_unassigned = false
is_active_job delivered = false
is_active_job failed_refund = false

abbrev pub same_driver : ℕ → Option ℕ → Bool
same_driver d none = false
same_driver d (some e) = d == e

-- `COUNT(o.id)` of the join
abbrev pub active_orders : ℕ → List Order → ℕ
active_orders d [] = 0
active_orders d (o ∷ os) =
    let rest = active_orders d os in
    if same_driver d o.driver_id && is_active_job o.status then suc rest else rest

unfoldable pub candidate_of : List Order → Driver → Candidate
candidate_of orders d = record {
  id = d.id;
  name = d.name;
  active = d.active;
  ready = is_some d.pin_set_at;
  active_orders = active_orders d.id orders;
  last_assigned_at = d.last_assigned_at;
}

-- the query of `dispatchOrder`: the active drivers, each with the orders that they carry
unfoldable pub candidates_of : List Order → List Driver → List Candidate
candidates_of orders [] = []
candidates_of orders (d ∷ ds) =
    if d.active then candidate_of orders d ∷ candidates_of orders ds else candidates_of orders ds

unfoldable pub assign_driver : ℕ → Candidate → Db → Db
assign_driver now d db = record db {
  drivers = update_by (λ x. x.id) d.id (λ x. record x { last_assigned_at = some now }) db.drivers;
}

-- the part of `dispatchOrder` after a driver was picked
unfoldable pub give_to : ℕ → ℕ → Candidate → Tx (Option Candidate)
give_to now order_id d = do
  update_order order_id (λ o. record o { driver_id = some d.id; updated_at = now })
  modify (assign_driver now d)
  transition_order now order_id dispatched (text "system:dispatch")
      (some (text "auto-assigned to " ++ d.name))
  modify (
      audit (text "system:dispatch") (text "order.dispatched")
        (some (text "order:" ++ decimal order_id)) (Detail.assignment d.id d.name d.active_orders))
  pure (some d)

abbrev is_waiting : Option Order → Bool
is_waiting none = false
is_waiting (some o) = same_status o.status paid_unassigned

-- `dispatchOrder`
unfoldable pub dispatch_order : ℕ → ℕ → Tx (Option Candidate)
dispatch_order now order_id db =
    if is_waiting (order_of order_id db)
    then (elim (pick_driver (candidates_of db.orders db.drivers) max_active_per_driver) [
      | none ↦ ok (none, db)
      | some d ↦ give_to now order_id d db
    ])
    else ok (none, db)

-- the ids of `findMany({ where: { status } })`
pub waiting : List Order → List ℕ
waiting [] = []
waiting (o ∷ os) = if same_status o.status paid_unassigned then o.id ∷ waiting os else waiting os

-- the loop of `dispatchWaiting`: it stops at the first order that nobody is free for
abbrev pub count_one : Result ℕ × Db → Result ℕ × Db
count_one (ok n, db) = (ok (suc n), db)
count_one (err e, db) = (err e, db)

unfoldable pub dispatch_each : ℕ → List ℕ → Db → Result ℕ × Db
dispatch_each now [] db = (ok 0, db)
dispatch_each now (id ∷ ids) db =
    let (r, db') = with_critical_transaction (dispatch_order now id) db in
    elim r [
      | err e ↦ (err e, db')
      | ok none ↦ (ok 0, db')
      | ok (some d) ↦ count_one (dispatch_each now ids db')
    ]

-- `dispatchWaiting`: the orders stand in the order of their creation, and fifty are taken.
unfoldable pub dispatch_waiting : ℕ → Db → Result ℕ × Db
dispatch_waiting now db = dispatch_each now (take 50 (waiting db.orders)) db
