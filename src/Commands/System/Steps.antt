-- ===== src/Commands/System/Steps.antt =====
-- The five things that a call can do to an order, and their sequences.
use mathlib.Core.Option
use ghost_merchant.Base.{ℕ, ◌≡◌, ◌≢◌, ap, true, Option, none, some, [], ◌∷◌, ◌++◌, arith}
use ghost_merchant.Base.Text.{Text}
use ghost_merchant.Domain.StateMachine.{
  Status, pending_payment, paid_unassigned, dispatched, can_transition,
}
use ghost_merchant.Domain.Rotation.{Candidate}
use ghost_merchant.Db.{Db, Order}
use ghost_merchant.Db.Rows.{order_of, find_order, find_receipt, add_order_event}
use ghost_merchant.Commands.Orders.Transition.{Transits, dues}
use ghost_merchant.Commands.Dispatch.{active_orders}
use ghost_merchant.Commands.Dispatch.Assign.{Assigned}
use ghost_merchant.Commands.Payments.{payment_row}
use ghost_merchant.Commands.Payments.Confirmation.{with_payment, paid_note}

-- What the status of an order and its money depend on.
abbrev pub brief : Order → Status × ℕ
brief o = (o.status, o.total_amount)

abbrev pub brief_of : ℕ → Db → Option (Status × ℕ)
brief_of id db = Option.map brief (order_of id db)

-- Nothing that concerns a status, a payment or a driver's load.
pub record Still (db db' : Db) : Type 0 where
  pub briefs : (j : ℕ) → brief_of j db' ≡ brief_of j db
  pub loads : (d : ℕ) → active_orders d db'.orders ≡ active_orders d db.orders
  pub order_events : db'.order_events ≡ db.order_events
  pub payments : db'.payments ≡ db.payments
  pub dues : dues db'.refunds ≡ dues db.refunds

-- A new order, which waits for its payment and has no driver.
pub record Born (o : Order) (actor : Text) (why : Option Text) (db db' : Db) : Type 0 where
  pub absent : order_of o.id db ≡ none
  pub pending : o.status ≡ pending_payment
  pub free : o.driver_id ≡ none
  pub orders : db'.orders ≡ db.orders ++ o ∷ []
  pub order_events :
      db'.order_events ≡ (add_order_event o.id none pending_payment actor why db).order_events
  pub payments : db'.payments ≡ db.payments
  pub dues : dues db'.refunds ≡ dues db.refunds

pub data Does (db db' : Db) : Type 0 where
  still : Still db db' → Does db db'
  born : (o : Order) (actor : Text) (why : Option Text) → Born o actor why db db' → Does db db'
  paid :
      (now id : ℕ) (ref actor : Text) (before : Order)
      → order_of id db ≡ some before
      → before.status ≡ pending_payment
      → find_receipt ref db.payments ≡ none
      → Transits now id paid_unassigned actor
          (paid_note ref)
          before
          (with_payment (payment_row id ref actor before) db)
          db'
      → Does db db'
  sent :
      (now id : ℕ) (d : Candidate) (before : Order)
      → order_of id db ≡ some before
      → Assigned now id d before db db'
      → Does db db'
  moves :
      (now id : ℕ) (to : Status) (actor : Text) (why : Option Text) (before : Order)
      → order_of id db ≡ some before
      → to ≢ dispatched
      → to ≢ paid_unassigned
      → Transits now id to actor why before db db'
      → Does db db'

pub data Steps (db : Db) : Db → Type 0 where
  stay : Steps db db
  next : {b c : Db} → Steps db b → Does b c → Steps db c

pub Steps-of_Does : {a b : Db} → Does a b → Steps a b
Steps-of_Does s = next stay s

pub Steps-trans : {a b c : Db} → Steps a b → Steps b c → Steps a c
Steps-trans h stay = h
Steps-trans h (next k s) = next (Steps-trans h k) s

pub Still-of_tables :
    {db db' : Db}
    → db'.orders ≡ db.orders
    → db'.order_events ≡ db.order_events
    → db'.payments ≡ db.payments
    → dues db'.refunds ≡ dues db.refunds
    → Still db db'
Still-of_tables os es ps ds = record {
  briefs = λ j. ap (λ os. Option.map brief (find_order j os)) os;
  loads = λ d. ap (active_orders d) os;
  order_events = es;
  payments = ps;
  dues = ds;
}

pub can_dispatch : {s : Status} → s ≡ paid_unassigned → can_transition s dispatched ≡ true
unfolding can_transition
can_dispatch {s} h = ground arith

-- What each step keeps, a sequence of them keeps.
pub Steps_keeps :
    (P : Db → Type 0)
    → ((a b : Db) → Does a b → P a → P b)
    → {db db' : Db} → Steps db db'
    → P db
    → P db'
Steps_keeps P keeps stay h = h
Steps_keeps P keeps (next {b = b} {c = c} s d) h = keeps b c d (Steps_keeps P keeps s h)
