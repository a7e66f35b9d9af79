-- ===== src/Commands/System/Sound.antt =====
-- What holds of the tables whatever calls were made.
use ghost_merchant.Base.{ℕ, ◌≤◌, subst, ◌≡◌, refl, Option, none, some, List, [], ◌∷◌, ◌++◌, arith}
use ghost_merchant.Base.Table.{find_by-append}
use ghost_merchant.Base.Text.{Text, text}
use ghost_merchant.Domain.StateMachine.{pending_payment, paid_unassigned, dispatched}
use ghost_merchant.Domain.Rotation.{Candidate}
use ghost_merchant.Db.{Db, Order, Driver}
use ghost_merchant.Db.Rows.{order_of}
use ghost_merchant.Commands.Orders.History.{
  IsAudited, Quiet, Quiet-IsAudited, Transits-replay, replay-append, same_status_refl,
}
use ghost_merchant.Commands.Dispatch.{active_orders}
use ghost_merchant.Commands.Dispatch.Assign.{Assigned, order_of-Assigned}
use ghost_merchant.Commands.Dispatch.Capacity.{
  IsLight, active_orders-carried, IsCapped, Transits-IsCapped, Assigned-IsCapped,
}
use ghost_merchant.Commands.Payments.{payment_row}
use ghost_merchant.Commands.Payments.Confirmation.{with_payment, paid_note}
use ghost_merchant.Commands.System.{Runtime, Call, run, new_db}
use ghost_merchant.Commands.System.Steps.{
  Does, still, born, paid, sent, moves, Steps_keeps, Still, Born, can_dispatch,
}
use ghost_merchant.Commands.System.Trace.{run-Steps}
use ghost_merchant.Commands.System.Money.{IsPaidUp, IsUnique, Does-IsPaidUp, Does-IsUnique}
use ghost_merchant.Commands.System.Refunds.{IsRefunded, Does-IsRefunded}

Still-Quiet : {db db' : Db} → Still db db' → Quiet db db'
Still-Quiet {db} {db'} s = record {
  status = λ j. ground (arith, s.briefs j);
  order_events = s.order_events;
}

Born-IsAudited :
    (o : Order) (actor : Text) (why : Option Text) (db db' : Db)
    → Born o actor why db db'
    → IsAudited db
    → IsAudited db'
Born-IsAudited o actor why db db' b h j = ground (
  arith,
  h j,
  b.absent,
  b.pending,
  b.orders,
  b.order_events,
  find_by-append (λ x. x.id) j db.orders (o ∷ []),
  replay-append j (some none) db.order_events (
      record {
        order_id = o.id;
        from_status = none;
        to_status = pending_payment;
        actor = actor;
        note = why;
      }
      ∷ []),
)

Assigned-IsAudited :
    (now id : ℕ) (d : Candidate) (before : Order) (db db' : Db)
    → order_of id db ≡ some before
    → Assigned now id d before db db'
    → IsAudited db
    → IsAudited db'
Assigned-IsAudited now id d before db db' found a h j = ground (
  arith,
  h j,
  a.waiting,
  a.order_events,
  same_status_refl before.status,
  can_dispatch a.waiting,
  order_of-Assigned now id d before db db' j a,
  replay-append j (some none) db.order_events (
      record {
        order_id = id;
        from_status = some before.status;
        to_status = dispatched;
        actor = text "system:dispatch";
        note = some (text "auto-assigned to " ++ d.name);
      }
      ∷ []),
)

pub Does-IsAudited : {db db' : Db} → Does db db' → IsAudited db → IsAudited db'
Does-IsAudited (still s) h = Quiet-IsAudited (Still-Quiet s) h
Does-IsAudited {db} {db'} (born o actor why b) h = Born-IsAudited o actor why db db' b h
Does-IsAudited {db} {db'} (paid now id ref actor before found waits unused t) h =
    Transits-replay now id paid_unassigned actor (paid_note ref)
      (with_payment (payment_row id ref actor before) db) db' before before found t h
Does-IsAudited {db} {db'} (sent now id d before found a) h =
    Assigned-IsAudited now id d before db db' found a h
Does-IsAudited {db} {db'} (moves now id to actor why before found nd nu t) h =
    Transits-replay now id to actor why db db' before before found t h

active_orders-append :
    (d : ℕ) (os : List Order) (o : Order)
    → o.driver_id ≡ none
    → active_orders d (os ++ o ∷ []) ≡ active_orders d os
active_orders-append d [] o free = ground arith
active_orders-append d (x ∷ os) o free = ground (arith, active_orders-append d os o free)

pub Does-IsCapped : {db db' : Db} → Does db db' → IsCapped db → IsCapped db'
Does-IsCapped (still s) h = λ d. ground (arith, s.loads d, h d)
Does-IsCapped {db} {db'} (born o actor why b) h =
    λ d. ground (arith, b.orders, active_orders-append d db.orders o b.free, h d)
Does-IsCapped {db} {db'} (paid now id ref actor before found waits unused t) h =
    Transits-IsCapped now id paid_unassigned actor (paid_note ref) before
      (with_payment (payment_row id ref actor before) db) db' found (λ e. cc) t h
Does-IsCapped {db} {db'} (sent now id d before found a) h =
    Assigned-IsCapped now id d before db db' found a h
Does-IsCapped {db} {db'} (moves now id to actor why before found nd nu t) h =
    Transits-IsCapped now id to actor why before db db' found nd t h

-- What every run of calls keeps, from a new database.
module _ (w : Runtime) (calls : List (ℕ × Call)) (drivers : List Driver) where
  -- A property of the tables that the five steps keep and a new database has.
  run_keeps :
      (P : Db → Type 0)
      → ((db db' : Db) → Does db db' → P db → P db')
      → P (new_db drivers)
      → P (run w calls (new_db drivers))
  run_keeps P keeps h = Steps_keeps P keeps (run-Steps w calls (new_db drivers)) h

  -- The books agree: whatever calls are made from a new database on, one after the other and whether
  -- or not they go through, the log of every order, replayed, gives its status.
  pub run-IsAudited : IsAudited (run w calls (new_db drivers))
  unfolding new_db
  run-IsAudited = run_keeps IsAudited (λ db db'. Does-IsAudited) (λ id. refl)

  -- Whatever calls are made from a new database on, one after the other, no driver carries more than
  -- three orders that are dispatched or on their way.
  pub run-IsLight : IsLight (run w calls (new_db drivers))
  unfolding new_db
  run-IsLight = λ d.
      subst (λ n. n ≤ 3) (active_orders-carried d (run w calls (new_db drivers)).orders)
        (run_keeps IsCapped (λ db db'. Does-IsCapped) (λ e. omega arith) d)

  -- Whatever calls are made from a new database on, one after the other, photo uploads, pickups and
  -- deliveries among them, the payments on record for an order come to
  -- nothing while it waits for its payment, to its total exactly once it is paid, on its way or
  -- delivered, and to one of the two if it failed; no order that is not there has a payment, and
  -- no receipt is on record twice.
  pub run-IsPaidUp :
      IsPaidUp (run w calls (new_db drivers)) × IsUnique (run w calls (new_db drivers)).payments
  unfolding new_db
  run-IsPaidUp = (
    run_keeps IsPaidUp (λ db db'. Does-IsPaidUp) (λ id. refl),
    run_keeps (λ db. IsUnique db.payments) (λ db db'. Does-IsUnique) tt,
  )

  -- Whatever calls are made from a new database on, one after the other, the refunds on record for an order, open or
  -- closed, are none unless it failed, and for one that failed one refund, of the sum of its
  -- payments, or none where nothing was paid.
  pub run-IsRefunded : IsRefunded (run w calls (new_db drivers))
  unfolding new_db
  run-IsRefunded = run_keeps IsRefunded (λ db db'. Does-IsRefunded) (λ id. refl)
