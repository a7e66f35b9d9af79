-- ===== src/Commands/System/Evidence.antt =====
-- The calls of the driver and the customer at the door, as steps.
use ghost_merchant.Base.{
  ℕ, ◌≡◌, ◌≢◌, refl, sym, subst, Bool, true, false, Option, some, arith, Option-cases, Bool-cases,
  inl, inr, leb,
}
use ghost_merchant.Base.Text.{Text, text}
use ghost_merchant.Domain.StateMachine.{Status, in_transit, delivered, dispatched, paid_unassigned}
use ghost_merchant.Domain.Evidence.{RawFix, Fix, parse_fix, handoff_max_attempts, handoff_matches}
use ghost_merchant.Db.{
  Db, Order, Handoff, Step, delivery, pickup, photo, code, Method, photo_no_code,
}
use ghost_merchant.Db.Tx.{Result, ok, err, >>=-eq-ok, with_critical_transaction}
use ghost_merchant.Db.Rows.{order_of, find_handoff, update_handoff}
use ghost_merchant.Commands.Proofs.{
  Distance, Outcome, done, wrong, locked, no_handoff, Evidence, by_code, by_reason, pickup_tx,
  confirm_pickup, delivery_tx, confirm_delivery, deliver_with, report, evidence_of, try_code,
  by_photo, lock_order_at, use_evidence,
}
use ghost_merchant.Commands.Proofs.Delivered.{
  Proves, Backed, coded, photographed, pickup_tx-Proves, delivery_tx-Backed, lock_order_at-ok,
}
use ghost_merchant.Commands.System.Steps.{
  still, moves, Steps, stay, next, Steps-of_Does, Steps-trans, Still, Still-of_tables,
}
use ghost_merchant.Commands.System.Calls.{Walks, with_critical_transaction-Steps}

Proves-Steps :
    (now id : ℕ) (actor : Text) (step : Step) (method : Method) (to : Status) (before o : Order)
    (db db' : Db)
    → order_of id db ≡ some before
    → to ≢ dispatched
    → to ≢ paid_unassigned
    → Proves now id actor step method to before o db db'
    → Steps db db'
Proves-Steps now id actor step method to before o db db' found d u p =
    next (Steps-of_Does (still (Still-of_tables refl refl refl refl)))
      (moves now id to actor p.why before found d u p.transits)

Backed-Steps :
    (now id : ℕ) (actor : Text) (before o : Order) (db db' : Db) (ev : Evidence)
    → order_of id db ≡ some before
    → Backed now id actor before o db db' ev
    → Steps db db'
Backed-Steps now id actor before o db db' ev found (coded given h there room right p) =
    Steps-trans (Steps-of_Does (still (Still-of_tables refl refl refl refl))) (
      Proves-Steps now id actor delivery code delivered before o
        (update_handoff id (λ x. record x { verified_at = some now }) db) db' found (λ e. cc)
        (λ e. cc) p)
Backed-Steps now id actor before o db db' ev found (photographed reason taken p) =
    Proves-Steps now id actor delivery photo_no_code delivered before o db db' found (λ e. cc)
      (λ e. cc) p

-- A delivery that does not go through touches no order.
abbrev is_done : Outcome → Bool
is_done (done o) = true
is_done (wrong n) = false
is_done locked = false
is_done no_handoff = false

try_code-Still :
    (dist : Distance) (now id : ℕ) (actor : Text) (fix : Option Fix) (row : Order) (given : Text)
    (h : Handoff) (db db' : Db) (x : Outcome)
    → is_done x ≡ false
    → try_code dist now id actor fix row given h db ≡ ok (x, db')
    → Still db db'
unfolding try_code
try_code-Still dist now id actor fix row given h db db' x u e =
    elim (Bool-cases (leb handoff_max_attempts h.attempts)) [
      | inl full ↦ Still-of_tables (ground arith) (ground arith) (ground arith) (ground arith)
      | inr room ↦ elim (Bool-cases (handoff_matches h.code given)) [
        | inl right ↦ absurd (ground arith)
        | inr wrong_one ↦
            Still-of_tables (ground arith) (ground arith) (ground arith) (ground arith)
      ]
    ]

by_photo_done :
    (dist : Distance) (now id : ℕ) (actor : Text) (fix : Option Fix) (row : Order) (reason : Text)
    (db db' : Db) (x : Outcome)
    → is_done x ≡ false
    → by_photo dist now id actor fix row reason db ≡ ok (x, db')
    → ⊥
unfolding by_photo
by_photo_done dist now id actor fix row reason db db' x u e = ground arith

use_evidence-Still :
    (dist : Distance) (now id : ℕ) (actor : Text) (fix : Option Fix) (row : Order) (ev : Evidence)
    (db db' : Db) (x : Outcome)
    → is_done x ≡ false
    → use_evidence dist now id actor fix row ev db ≡ ok (x, db')
    → Still db db'
unfolding use_evidence
use_evidence-Still dist now id actor fix row (by_code given) db db' x u e =
    elim (Option-cases (find_handoff id db.handoffs)) [
      | inl missing ↦ Still-of_tables (ground arith) (ground arith) (ground arith) (ground arith)
      | inr (h, there) ↦ try_code-Still dist now id actor fix row given h db db' x u (ground arith)
    ]
use_evidence-Still dist now id actor fix row (by_reason reason) db db' x u e =
    absurd (by_photo_done dist now id actor fix row reason db db' x u e)

delivery_tx-Still :
    (dist : Distance) (now id : ℕ) (actor : Text) (fix : Option Fix) (ev : Evidence) (db db' : Db)
    (x : Outcome)
    → is_done x ≡ false
    → delivery_tx dist now id actor fix ev db ≡ ok (x, db')
    → Still db db'
unfolding delivery_tx
delivery_tx-Still dist now id actor fix ev db db' x u e =
    let (row, db₀, held, rest) =
      >>=-eq-ok (lock_order_at id in_transit (text "this order is not out for delivery"))
        (λ row. use_evidence dist now id actor fix row ev) db e in
    let (found, out, same) =
      lock_order_at-ok id in_transit (text "this order is not out for delivery") db db₀ row held in
    use_evidence-Still dist now id actor fix row ev db db' x u
      (subst (λ y. use_evidence dist now id actor fix row ev y ≡ ok (x, db')) same rest)

delivery_tx-Walks :
    (dist : Distance) (now id : ℕ) (actor : Text) (fix : Option Fix) (ev : Evidence)
    → Walks (delivery_tx dist now id actor fix ev)
delivery_tx-Walks dist now id actor fix ev db db' (done o) e =
    let (before, found, out, backed) = delivery_tx-Backed dist now id actor fix ev db db' o e in
    Backed-Steps now id actor before o db db' ev found backed
delivery_tx-Walks dist now id actor fix ev db db' (wrong n) e =
    Steps-of_Does (still (delivery_tx-Still dist now id actor fix ev db db' (wrong n) refl e))
delivery_tx-Walks dist now id actor fix ev db db' locked e =
    Steps-of_Does (still (delivery_tx-Still dist now id actor fix ev db db' locked refl e))
delivery_tx-Walks dist now id actor fix ev db db' no_handoff e =
    Steps-of_Does (still (delivery_tx-Still dist now id actor fix ev db db' no_handoff refl e))

report-db : (p : Result Outcome × Db) → (report p).1 ≡ p.1
unfolding report
report-db (err e, db) = refl
report-db (ok (done o), db) = refl
report-db (ok (wrong n), db) = refl
report-db (ok locked, db) = refl
report-db (ok no_handoff, db) = refl

deliver_with-Steps :
    (r : Result Evidence) (dist : Distance) (now id : ℕ) (actor : Text) (fix : Option Fix) (db : Db)
    → Steps db (deliver_with r dist now id actor fix db).1
unfolding deliver_with
deliver_with-Steps (err e) dist now id actor fix db = stay
deliver_with-Steps (ok ev) dist now id actor fix db =
    let body = delivery_tx dist now id actor fix ev in
    subst (Steps db) (sym (report-db (with_critical_transaction body db)))
      (with_critical_transaction-Steps body (delivery_tx-Walks dist now id actor fix ev) db)

pub confirm_delivery-Steps :
    (dist : Distance) (now id : ℕ) (actor : Text) (given reason : Option Text) (fix : Option RawFix)
    (db : Db)
    → Steps db (confirm_delivery dist now id actor given reason fix db).1
unfolding confirm_delivery
confirm_delivery-Steps dist now id actor given reason fix db =
    deliver_with-Steps (evidence_of given reason) dist now id actor (parse_fix fix) db

pickup_tx-Walks :
    (dist : Distance) (now id : ℕ) (actor : Text) (fix : Option Fix)
    → Walks (pickup_tx dist now id actor fix)
pickup_tx-Walks dist now id actor fix db db' o e =
    let (before, found, waits, taken, p) = pickup_tx-Proves dist now id actor fix db db' o e in
    Proves-Steps now id actor pickup photo in_transit before o db db' found (λ e. cc) (λ e. cc) p

pub confirm_pickup-Steps :
    (dist : Distance) (now id : ℕ) (actor : Text) (fix : Option RawFix) (db : Db)
    → Steps db (confirm_pickup dist now id actor fix db).1
unfolding confirm_pickup
confirm_pickup-Steps dist now id actor fix db =
    with_critical_transaction-Steps (pickup_tx dist now id actor (parse_fix fix))
      (pickup_tx-Walks dist now id actor (parse_fix fix)) db
