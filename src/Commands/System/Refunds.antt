-- ===== src/Commands/System/Refunds.antt =====
-- The refunds of every order are what its end calls for.
use ghost_merchant.Base.{
  ℕ, ◌≡◌, ◌&&◌, refl, Option, none, some, List, [], ◌∷◌, ◌++◌, ◌==◌, if◌then◌else◌, arith,
}
use ghost_merchant.Base.Table.{find_by-append}
use ghost_merchant.Base.Text.{Text}
use ghost_merchant.Domain.StateMachine.{
  Status, pending_payment, paid_unassigned, dispatched, in_transit, delivered, failed_refund,
  can_transition, same_status,
}
use ghost_merchant.Domain.Rotation.{Candidate}
use ghost_merchant.Db.{Db, Order, Refund}
use ghost_merchant.Db.Rows.{order_of, find_open, paid_total}
use ghost_merchant.Commands.Orders.Transition.{Transits, order_of-Transits, dues, dues_after}
use ghost_merchant.Commands.Dispatch.Assign.{Assigned, order_of-Assigned}
use ghost_merchant.Commands.Payments.{payment_row}
use ghost_merchant.Commands.Payments.Confirmation.{with_payment, paid_note}
use ghost_merchant.Commands.System.Steps.{Does, still, born, paid, sent, moves, Still, Born}
use ghost_merchant.Commands.System.Money.{paid_total-append}

-- The amounts of the refunds of the order `id`, open or closed.
abbrev amounts_of : ℕ → List (ℕ × ℕ) → List ℕ
amounts_of id [] = []
amounts_of id ((k, n) ∷ ds) = let rest = amounts_of id ds in if k == id then n ∷ rest else rest

abbrev pub refunds_of : ℕ → Db → List ℕ
refunds_of id db = amounts_of id (dues db.refunds)

amounts_of-append :
    (id k n : ℕ) (ds : List (ℕ × ℕ))
    → amounts_of id (ds ++ (k, n) ∷ [])
      ≡ (if k == id then amounts_of id ds ++ n ∷ [] else amounts_of id ds)
amounts_of-append id k n [] = ground arith
amounts_of-append id k n ((i, m) ∷ ds) = ground (arith, amounts_of-append id k n ds)

find_open-unowed :
    (id : ℕ) (rs : List Refund) → amounts_of id (dues rs) ≡ [] → find_open id rs ≡ none
find_open-unowed id [] h = refl
find_open-unowed id (r ∷ rs) h = ground (arith, find_open-unowed id rs)

-- Nothing for an order that did not fail; for one that did, one refund of what was paid, if
-- anything was.
abbrev refund_due : Option Order → ℕ → List ℕ
refund_due none n = []
refund_due (some o) n =
    if same_status o.status failed_refund then (if n == 0 then [] else n ∷ []) else []

abbrev pub IsRefunded : Db → Type 0
IsRefunded db =
    (id : ℕ) → refunds_of id db ≡ refund_due (order_of id db) (paid_total id db.payments)

Still-IsRefunded : (db db' : Db) → Still db db' → IsRefunded db → IsRefunded db'
Still-IsRefunded db db' s h j = ground (arith, s.briefs j, s.payments, s.dues, h j)

Born-IsRefunded :
    (o : Order) (actor : Text) (why : Option Text) (db db' : Db)
    → Born o actor why db db'
    → IsRefunded db
    → IsRefunded db'
Born-IsRefunded o actor why db db' b h j = ground (
  arith,
  h j,
  b.absent,
  b.pending,
  b.orders,
  b.payments,
  b.dues,
  find_by-append (λ x. x.id) j db.orders (o ∷ []),
)

paid-IsRefunded :
    (now id : ℕ) (ref actor : Text) (before : Order) (db db' : Db)
    → order_of id db ≡ some before
    → before.status ≡ pending_payment
    → Transits now id paid_unassigned actor
        (paid_note ref)
        before
        (with_payment (payment_row id ref actor before) db)
        db'
    → IsRefunded db
    → IsRefunded db'
unfolding payment_row
paid-IsRefunded now id ref actor before db db' found waits t h j = ground (
  arith,
  h j,
  t.payments,
  t.dues,
  paid_total-append j db.payments (payment_row id ref actor before),
  order_of-Transits now id paid_unassigned actor (paid_note ref) before
      (with_payment (payment_row id ref actor before) db) db' j t,
)

Assigned-IsRefunded :
    (now id : ℕ) (d : Candidate) (before : Order) (db db' : Db)
    → order_of id db ≡ some before
    → Assigned now id d before db db'
    → IsRefunded db
    → IsRefunded db'
Assigned-IsRefunded now id d before db db' found a h j =
    ground (arith, h j, a.payments, a.waiting, a.dues, order_of-Assigned now id d before db db' j a)

-- What a legal transition adds to the refunds, where none was before.
dues_after-added :
    (id j : ℕ) (to : Status) (db : Db)
    → refunds_of id db ≡ []
    → amounts_of j (dues_after id to db) ≡ (
        if id == j && same_status to failed_refund
        then (if paid_total id db.payments == 0 then [] else paid_total id db.payments ∷ [])
        else refunds_of j db)
dues_after-added id j failed_refund db h = ground (
  arith,
  find_open-unowed id db.refunds h,
  amounts_of-append j id (paid_total id db.payments) (dues db.refunds),
)
dues_after-added id j pending_payment db h = ground arith
dues_after-added id j paid_unassigned db h = ground arith
dues_after-added id j dispatched db h = ground arith
dues_after-added id j in_transit db h = ground arith
dues_after-added id j delivered db h = ground arith

moves-IsRefunded :
    (now id : ℕ) (to : Status) (actor : Text) (why : Option Text) (before : Order) (db db' : Db)
    → order_of id db ≡ some before
    → Transits now id to actor why before db db'
    → IsRefunded db
    → IsRefunded db'
unfolding can_transition
moves-IsRefunded now id to actor why before db db' found t h j =
    let unowed : refunds_of id db ≡ [] = ground (arith, h id, t.legal) in
    ground (
      arith,
      h j,
      h id,
      t.legal,
      t.payments,
      t.dues,
      dues_after-added id j to db unowed,
      order_of-Transits now id to actor why before db db' j t,
    )

pub Does-IsRefunded : {db db' : Db} → Does db db' → IsRefunded db → IsRefunded db'
Does-IsRefunded {db} {db'} (still s) h = Still-IsRefunded db db' s h
Does-IsRefunded {db} {db'} (born o actor why b) h = Born-IsRefunded o actor why db db' b h
Does-IsRefunded {db} {db'} (paid now id ref actor before found waits unused t) h =
    paid-IsRefunded now id ref actor before db db' found waits t h
Does-IsRefunded {db} {db'} (sent now id d before found a) h =
    Assigned-IsRefunded now id d before db db' found a h
Does-IsRefunded {db} {db'} (moves now id to actor why before found nd nu t) h =
    moves-IsRefunded now id to actor why before db db' found t h
