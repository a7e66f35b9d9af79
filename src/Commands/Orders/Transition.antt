-- ===== src/Commands/Orders/Transition.antt =====
-- What a transition does to the tables.
use ghost_merchant.Base.{
  ℕ, ◌≡◌, refl, ap, ◌∙◌, Bool, true, false, Option, none, some, List, [], ◌∷◌, ◌++◌, arith, ◌==◌,
  if◌then◌else◌,
}
use mathlib.Core.Option
use ghost_merchant.Base.Table.{update_by, find_by-update_by}
use ghost_merchant.Base.Text.{Text}
use ghost_merchant.Domain.StateMachine.{Status, failed_refund, can_transition}
use ghost_merchant.Db.{Db, Order, Event, Message, Refund}
use ghost_merchant.Db.Tx.{ok, err, illegal_transition, order_not_found, ◌>>◌, >>=-eq-ok, pure}
use ghost_merchant.Db.Rows.{order_of, find_order, add_order_event, enqueue, paid_total, find_open}
use ghost_merchant.Commands.Orders.{
  transition_order, assert_transition, insert_message, open_refund_if_owed, auto_respond,
  refund_if_failed, create_refund, new_refund,
}

-- The row that a transition leaves.
abbrev pub moved : ℕ → Status → Order → Order
moved now to o = record o { status = to; updated_at = now }

-- What an action that only writes messages, refunds and outbox rows leaves alone.
pub record SameOrders (db db' : Db) : Type 0 where
  pub orders : db'.orders ≡ db.orders
  pub order_events : db'.order_events ≡ db.order_events
  pub payments : db'.payments ≡ db.payments
  pub handoffs : db'.handoffs ≡ db.handoffs
  pub proofs : db'.proofs ≡ db.proofs
  pub drivers : db'.drivers ≡ db.drivers
  pub photos : db'.photos ≡ db.photos

SameOrders-trans : (a b c : Db) → SameOrders a b → SameOrders b c → SameOrders a c
SameOrders-trans a b c h k = ground arith

pub insert_message-SameOrders :
    (now id : ℕ) (sender body : Text) (client : Option ℕ) (db db' : Db) (m : Message × Bool)
    → insert_message now id sender body client db ≡ ok (m, db')
    → SameOrders db db'
unfolding insert_message
insert_message-SameOrders now id sender body client db db' m h = ground arith

auto_respond-SameOrders :
    (now id : ℕ) (to : Status) (db db' : Db) (u : Unit {0})
    → auto_respond now id to db ≡ ok (u, db')
    → SameOrders db db'
unfolding auto_respond
auto_respond-SameOrders now id to db db' u h = ground arith

pub open_refund_if_owed-SameOrders :
    (id : ℕ) (why : Option Text) (actor : Text) (db db' : Db) (r : Option Refund)
    → open_refund_if_owed id why actor db ≡ ok (r, db')
    → SameOrders db db'
unfolding open_refund_if_owed
open_refund_if_owed-SameOrders id why actor db db' r h = ground arith

refund_if_failed-SameOrders :
    (id : ℕ) (to : Status) (why : Option Text) (actor : Text) (db db' : Db) (u : Unit {0})
    → refund_if_failed id to why actor db ≡ ok (u, db')
    → SameOrders db db'
unfolding refund_if_failed
refund_if_failed-SameOrders id failed_refund why actor db db' u h =
    let (r, db₁, first, rest) = >>=-eq-ok (open_refund_if_owed id why actor) (λ _. pure tt) db h in
    open_refund_if_owed-SameOrders id why actor db db' r (cc)
refund_if_failed-SameOrders id _ why actor db db' u h = ground arith

-- The debts on record: the order and the amount of each.
abbrev pub dues : List Refund → List (ℕ × ℕ)
dues [] = []
dues (r ∷ rs) = (r.order_id, r.amount) ∷ dues rs

pub dues-append :
    (rs : List Refund) (r : Refund) → dues (rs ++ r ∷ []) ≡ dues rs ++ (r.order_id, r.amount) ∷ []
dues-append [] r = refl
dues-append (x ∷ rs) r = ground (arith, dues-append rs r)

-- The debts after a transition: a failure adds what was paid, where something was and no debt is
-- open.
abbrev pub dues_after : ℕ → Status → Db → List (ℕ × ℕ)
dues_after id failed_refund db =
    if paid_total id db.payments == 0 then dues db.refunds else (elim (find_open id db.refunds) [
      | none ↦ dues db.refunds ++ (id, paid_total id db.payments) ∷ []
      | some r ↦ dues db.refunds
    ])
dues_after id _ db = dues db.refunds

pub auto_respond-refunds :
    (now id : ℕ) (to : Status) (db db' : Db) (u : Unit {0})
    → auto_respond now id to db ≡ ok (u, db')
    → (db'.refunds ≡ db.refunds) × (db'.payments ≡ db.payments)
unfolding auto_respond insert_message
auto_respond-refunds now id to db db' u h = ground arith

open_refund_if_owed-dues :
    (id : ℕ) (why : Option Text) (actor : Text) (db db' : Db) (r : Option Refund)
    → open_refund_if_owed id why actor db ≡ ok (r, db')
    → dues db'.refunds ≡ dues_after id failed_refund db
unfolding open_refund_if_owed create_refund
open_refund_if_owed-dues id why actor db db' r h =
    ground (arith, dues-append db.refunds (new_refund id (paid_total id db.payments) why actor db))

refund_if_failed-dues :
    (id : ℕ) (to : Status) (why : Option Text) (actor : Text) (db db' : Db) (u : Unit {0})
    → refund_if_failed id to why actor db ≡ ok (u, db')
    → dues db'.refunds ≡ dues_after id to db
unfolding refund_if_failed
refund_if_failed-dues id failed_refund why actor db db' u h =
    let (r, db₁, first, rest) = >>=-eq-ok (open_refund_if_owed id why actor) (λ _. pure tt) db h in
    open_refund_if_owed-dues id why actor db db' r (cc)
refund_if_failed-dues id _ why actor db db' u h = ground arith

-- The tables once the row has moved, with its event and its outbox row.
abbrev pub relabelled : ℕ → ℕ → Status → Text → Option Text → Order → Db → Db
relabelled now id to actor why before db =
    elim (enqueue now (Event.order_state_changed id before.status to actor) (
      add_order_event id (some before.status) to actor why
        (record db { orders = update_by (λ r. r.id) id (moved now to) db.orders }))) [
          | ok (n, db') ↦ db'
          | err e ↦ db
        ]

pub transition_order_lem :
    (now id : ℕ) (to : Status) (actor : Text) (why : Option Text) (db : Db) (before : Order)
    → order_of id db ≡ some before
    → transition_order now id to actor why db ≡ (
        if can_transition before.status to
        then (auto_respond now id to
              >> (refund_if_failed id to why actor >> pure (moved now to before)))
            (relabelled now id to actor why before db)
        else err (illegal_transition before.status to))
unfolding transition_order assert_transition
transition_order_lem now id to actor why db before found = ground arith

dues_after-same :
    (id : ℕ) (to : Status) (db db₁ : Db)
    → db₁.refunds ≡ db.refunds
    → db₁.payments ≡ db.payments
    → dues_after id to db₁ ≡ dues_after id to db
dues_after-same id to db db₁ r p = ground arith

tail-SameOrders :
    (now id : ℕ) (to : Status) (why : Option Text) (actor : Text) (db db' : Db) (a o : Order)
    → (auto_respond now id to >> (refund_if_failed id to why actor >> pure a)) db ≡ ok (o, db')
    → SameOrders db db' × (o ≡ a) × (dues db'.refunds ≡ dues_after id to db)
tail-SameOrders now id to why actor db db' a o h =
    let (u, db₁, first, rest) =
      >>=-eq-ok (auto_respond now id to) (λ _. refund_if_failed id to why actor >> pure a) db h in
    let (v, db₂, second, last) =
      >>=-eq-ok (refund_if_failed id to why actor) (λ _. pure a) db₁ rest in
    ground (
      arith,
      SameOrders-trans db db₁ db₂ (auto_respond-SameOrders now id to db db₁ u first)
          (refund_if_failed-SameOrders id to why actor db₁ db₂ v second),
      auto_respond-refunds now id to db db₁ u first,
      refund_if_failed-dues id to why actor db₁ db₂ v second,
      dues_after-same id to db db₁,
    )

-- One transition of the order `id`, whose row was `before`, from `db` to `db'`.
pub record Transits (now id : ℕ) (to : Status) (actor : Text) (why : Option Text) (before : Order)
    (db db' : Db) : Type 0 where
  pub legal : can_transition before.status to ≡ true
  pub orders : db'.orders ≡ update_by (λ r. r.id) id (moved now to) db.orders
  pub order_events :
      db'.order_events ≡ (add_order_event id (some before.status) to actor why db).order_events
  pub payments : db'.payments ≡ db.payments
  pub handoffs : db'.handoffs ≡ db.handoffs
  pub proofs : db'.proofs ≡ db.proofs
  pub photos : db'.photos ≡ db.photos
  pub drivers : db'.drivers ≡ db.drivers
  pub dues : dues db'.refunds ≡ dues_after id to db

pub transition_order-Transits :
    (now id : ℕ) (to : Status) (actor : Text) (why : Option Text) (db db' : Db) (before o : Order)
    → order_of id db ≡ some before
    → transition_order now id to actor why db ≡ ok (o, db')
    → Transits now id to actor why before db db' × (o ≡ moved now to before)
transition_order-Transits now id to actor why db db' before o found h = ground (
  arith,
  transition_order_lem now id to actor why db before found,
  tail-SameOrders now id to why actor (relabelled now id to actor why before db) db'
      (moved now to before) o,
)

-- What is found after a transition.
pub order_of-Transits :
    (now id : ℕ) (to : Status) (actor : Text) (why : Option Text) (before : Order) (db db' : Db)
    (j : ℕ)
    → Transits now id to actor why before db db'
    → order_of j db'
      ≡ (if id == j then Option.map (moved now to) (order_of j db) else order_of j db)
order_of-Transits now id to actor why before db db' j t =
    ap (find_order j) t.orders
    ∙ find_by-update_by (λ r. r.id) j id (moved now to) db.orders (λ o. refl)

-- A transition that goes through was legal, and moves that order and no other: whichever order is
-- looked up afterwards, its row is as it was, or has the new status and time if it is that order.
pub transition_order-moves :
    (now id : ℕ) (to : Status) (actor : Text) (why : Option Text) (db db' : Db) (before o : Order)
    (j : ℕ)
    → order_of id db ≡ some before
    → transition_order now id to actor why db ≡ ok (o, db')
    → (can_transition before.status to ≡ true)
      × (order_of j db' ≡ (if id == j then some (moved now to before) else order_of j db))
transition_order-moves now id to actor why db db' before o j found h =
    let (t, _) = transition_order-Transits now id to actor why db db' before o found h in
    (t.legal, ground (arith, order_of-Transits now id to actor why before db db' j t))

-- An order that is not there, or a transition that the table does not have, is refused with the
-- error that names it.
pub transition_order-refuses :
    (now id : ℕ) (to : Status) (actor : Text) (why : Option Text) (db : Db)
    → (order_of id db ≡ none → transition_order now id to actor why db ≡ err (order_not_found id))
      × ((before : Order)
          → order_of id db ≡ some before
          → can_transition before.status to ≡ false
          → transition_order now id to actor why db ≡ err (illegal_transition before.status to))
unfolding transition_order
transition_order-refuses now id to actor why db = (
  (λ missing. ground arith),
  λ before found no'. transition_order_lem now id to actor why db before found ∙ rw no',
)

-- A transition that the table does not have is refused with the error that names it, and no tables
-- come with it.
pub transition_order-illegal :
    (now id : ℕ) (to : Status) (actor : Text) (why : Option Text) (db : Db) (before : Order)
    → order_of id db ≡ some before
    → can_transition before.status to ≡ false
    → transition_order now id to actor why db ≡ err (illegal_transition before.status to)
transition_order-illegal now id to actor why db before found no' =
    (transition_order-refuses now id to actor why db).1 before found no'
