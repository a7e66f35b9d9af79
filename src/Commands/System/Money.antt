-- ===== src/Commands/System/Money.antt =====
-- The payments of every order are what its status says, and no receipt is used twice.
use ghost_merchant.Base.{
  ℕ, ◌+◌, ◌≡◌, refl, sym, subst, Bool, true, false, Option, none, some, List, [], ◌∷◌, ◌++◌, ◌==◌,
  ◌||◌, ◌&&◌, ◌≢◌, if◌then◌else◌, arith,
}
use ghost_merchant.Base.Table.{find_by-append}
use ghost_merchant.Base.Text.{Text, text_eq, text_eq_sym}
use ghost_merchant.Domain.StateMachine.{
  Status, pending_payment, paid_unassigned, dispatched, in_transit, delivered, failed_refund,
  can_transition,
}
use ghost_merchant.Domain.Rotation.{Candidate}
use ghost_merchant.Db.{Db, Order, Payment}
use ghost_merchant.Db.Rows.{order_of, find_receipt, paid_total}
use ghost_merchant.Commands.Orders.Transition.{Transits, order_of-Transits}
use ghost_merchant.Commands.Dispatch.Assign.{Assigned, order_of-Assigned}
use ghost_merchant.Commands.Payments.{payment_row}
use ghost_merchant.Commands.Payments.Confirmation.{with_payment, paid_note}
use ghost_merchant.Commands.System.Steps.{Does, still, born, paid, sent, moves, Still, Born}

-- What an order in a status has to have been paid: nothing before its payment, its total after it,
-- and either where it failed.
abbrev pub is_paid_up : Option Order → ℕ → Bool
is_paid_up none n = n == 0
is_paid_up (some o) n = elim o.status [
  | pending_payment ↦ n == 0
  | paid_unassigned ↦ n == o.total_amount
  | dispatched ↦ n == o.total_amount
  | in_transit ↦ n == o.total_amount
  | delivered ↦ n == o.total_amount
  | failed_refund ↦ n == 0 || n == o.total_amount
]

-- The payments on record for every id are what the order's status says.
abbrev pub IsPaidUp : Db → Type 0
IsPaidUp db = (id : ℕ) → is_paid_up (order_of id db) (paid_total id db.payments) ≡ true

-- No receipt is on record twice.
abbrev pub IsUnique : List Payment → Type 0
IsUnique [] = Unit {0}
IsUnique (p ∷ ps) = (find_receipt p.telecom_receipt_id ps ≡ none) × IsUnique ps

pub paid_total-append :
    (id : ℕ) (ps : List Payment) (p : Payment)
    → paid_total id (ps ++ p ∷ [])
      ≡ paid_total id ps + (if p.order_id == id && p.matched then p.amount else 0)
paid_total-append id [] p = ground arith
paid_total-append id (x ∷ ps) p = ground (arith, paid_total-append id ps p)

Still-IsPaidUp : (db db' : Db) → Still db db' → IsPaidUp db → IsPaidUp db'
Still-IsPaidUp db db' s h j = ground (arith, s.briefs j, s.payments, h j)

Born-IsPaidUp :
    (o : Order) (actor : Text) (why : Option Text) (db db' : Db)
    → Born o actor why db db'
    → IsPaidUp db
    → IsPaidUp db'
Born-IsPaidUp o actor why db db' b h j = ground (
  arith,
  h j,
  b.absent,
  b.pending,
  b.orders,
  b.payments,
  find_by-append (λ x. x.id) j db.orders (o ∷ []),
)

paid-IsPaidUp :
    (now id : ℕ) (ref actor : Text) (before : Order) (db db' : Db)
    → order_of id db ≡ some before
    → before.status ≡ pending_payment
    → Transits now id paid_unassigned actor
        (paid_note ref)
        before
        (with_payment (payment_row id ref actor before) db)
        db'
    → IsPaidUp db
    → IsPaidUp db'
unfolding payment_row
paid-IsPaidUp now id ref actor before db db' found waits t h j = ground (
  arith,
  h j,
  t.payments,
  paid_total-append j db.payments (payment_row id ref actor before),
  order_of-Transits now id paid_unassigned actor (paid_note ref) before
      (with_payment (payment_row id ref actor before) db) db' j t,
)

Assigned-IsPaidUp :
    (now id : ℕ) (d : Candidate) (before : Order) (db db' : Db)
    → order_of id db ≡ some before
    → Assigned now id d before db db'
    → IsPaidUp db
    → IsPaidUp db'
Assigned-IsPaidUp now id d before db db' found a h j =
    ground (arith, h j, a.payments, a.waiting, order_of-Assigned now id d before db db' j a)

moves-IsPaidUp :
    (now id : ℕ) (to : Status) (actor : Text) (why : Option Text) (before : Order) (db db' : Db)
    → order_of id db ≡ some before
    → to ≢ dispatched
    → to ≢ paid_unassigned
    → Transits now id to actor why before db db'
    → IsPaidUp db
    → IsPaidUp db'
unfolding can_transition
moves-IsPaidUp now id to actor why before db db' found nd nu t h j =
    ground
      (arith, h j, t.legal, t.payments, order_of-Transits now id to actor why before db db' j t)

pub Does-IsPaidUp : {db db' : Db} → Does db db' → IsPaidUp db → IsPaidUp db'
Does-IsPaidUp {db} {db'} (still s) h = Still-IsPaidUp db db' s h
Does-IsPaidUp {db} {db'} (born o actor why b) h = Born-IsPaidUp o actor why db db' b h
Does-IsPaidUp {db} {db'} (paid now id ref actor before found waits unused t) h =
    paid-IsPaidUp now id ref actor before db db' found waits t h
Does-IsPaidUp {db} {db'} (sent now id d before found a) h =
    Assigned-IsPaidUp now id d before db db' found a h
Does-IsPaidUp {db} {db'} (moves now id to actor why before found nd nu t) h =
    moves-IsPaidUp now id to actor why before db db' found nd nu t h

find_receipt-other :
    (r : Text) (ps : List Payment) (p : Payment)
    → find_receipt r ps ≡ none
    → text_eq r p.telecom_receipt_id ≡ false
    → find_receipt r (ps ++ p ∷ []) ≡ none
find_receipt-other r [] p h n = ground arith
find_receipt-other r (x ∷ ps) p h n = ground (arith, find_receipt-other r ps p)

IsUnique-append :
    (ps : List Payment) (p : Payment)
    → IsUnique ps
    → find_receipt p.telecom_receipt_id ps ≡ none
    → IsUnique (ps ++ p ∷ [])
IsUnique-append [] p u h = (refl, tt)
IsUnique-append (x ∷ ps) p (first, rest) h = (
  find_receipt-other x.telecom_receipt_id ps p first
      (ground (arith, text_eq_sym p.telecom_receipt_id x.telecom_receipt_id)),
  IsUnique-append ps p rest (ground arith),
)

pub Does-IsUnique : {db db' : Db} → Does db db' → IsUnique db.payments → IsUnique db'.payments
unfolding payment_row
Does-IsUnique (still s) u = subst IsUnique (sym s.payments) u
Does-IsUnique (born o actor why b) u = subst IsUnique (sym b.payments) u
Does-IsUnique {db} (paid now id ref actor before found waits unused t) u =
    subst IsUnique (sym t.payments)
      (IsUnique-append db.payments (payment_row id ref actor before) u unused)
Does-IsUnique (sent now id d before found a) u = subst IsUnique (sym a.payments) u
Does-IsUnique (moves now id to actor why before found nd nu t) u = subst IsUnique (sym t.payments) u
