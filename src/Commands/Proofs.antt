-- ===== src/Commands/Proofs.antt =====
-- Proof of delivery (backend/src/commands/proofs.js). `distance_meters` is the rounded haversine
-- distance of backend/src/domain/proof.js.
pub mod Delivered
pub mod Tries
pub mod Dispute
use ghost_merchant.Base.{
  ℕ, suc, ◌+◌, ◌-◌, ◌*◌, Bool, true, false, Option, none, some, List, [], ◌∷◌, ◌++◌, not, leb, ltb,
  if◌then◌else◌,
}
use ghost_merchant.Base.Decimal.{decimal}
use ghost_merchant.Base.Text.{Text, text}
use ghost_merchant.Domain.StateMachine.{
  Status, dispatched, in_transit, delivered, same_status, status_name,
}
use ghost_merchant.Domain.Evidence.{
  RawFix, Fix, Pin, Built, parse_fix, clean_reason, build_proof, is_handoff_code, handoff_matches,
  handoff_max_attempts, dispute_window_hours,
}
use ghost_merchant.Db.{
  Db, Order, Handoff, Proof, Step, pickup, delivery, Method, photo, code, photo_no_code,
  pickup_proof, delivery_proof, Flag, no_code, no_gps, far_from_pin, customer_disputed,
}
use ghost_merchant.Db.Tx.{
  Tx, Result, ok, err, Error, proof_error, unique_violation, ◌>>=◌, ◌>>◌, pure, throw, gets,
  or_throw, throw_if, modify, with_transaction, with_critical_transaction,
}
use ghost_merchant.Db.Rows.{
  order_of, find_handoff, update_handoff, has_photo, find_proof, update_proof,
}
use ghost_merchant.Commands.Orders.{transition_order, insert_message}

abbrev pub Distance : Type 0
Distance = Fix → Pin → ℕ

-- `lockOrder`, and the test of the status that both steps begin with
unfoldable pub lock_order_at : ℕ → Status → Text → Tx Order
lock_order_at order_id status complaint = do
  found ← gets (order_of order_id)
  row ← or_throw found (proof_error (text "order not found") 404 none)
  throw_if (not (same_status row.status status))
      (proof_error (complaint ++ text " (" ++ status_name row.status ++ text ")") 409 none)
  pure row

unfoldable pub proof_row : ℕ → ℕ → Text → Built → Proof
proof_row now order_id actor b = record {
  order_id = order_id;
  step = b.step;
  method = b.method;
  note = b.note;
  lat = b.lat;
  lng = b.lng;
  accuracy_m = b.accuracy_m;
  distance_m = b.distance_m;
  flags = b.flags;
  actor = actor;
  created_at = now;
  reviewed_by = none;
  reviewed_at = none;
}

-- `tx.orderProof.create`, under the unique index on the order and the step
unfoldable pub add_proof : Proof → Tx (Unit {0})
add_proof p db = elim (find_proof p.order_id p.step db.proofs) [
  | some there ↦ err unique_violation
  | none ↦ ok (tt, record db { proofs = db.proofs ++ p ∷ [] })
]

-- The evidence and the transition that it justifies, in one commit.
unfoldable pub prove :
    Distance
    → ℕ
    → ℕ
    → Text
    → Step
    → Method
    → Option Fix
    → Option Text
    → Order
    → Status
    → Text
    → Tx Order
unfolding proof_row
prove distance_meters now order_id actor step method fix reason row to note = do
  add_proof (proof_row now order_id actor (build_proof distance_meters step method fix row reason))
  transition_order now order_id to actor (some note)

unfoldable pub pickup_tx : Distance → ℕ → ℕ → Text → Option Fix → Tx Order
pickup_tx distance_meters now order_id actor fix = do
  row ← lock_order_at order_id dispatched (text "this order is not waiting for pickup")
  taken ← gets (λ db. has_photo order_id pickup_proof db.photos)
  throw_if (not taken) (proof_error (text "take a photo of the items first") 422 none)
  prove distance_meters now order_id actor pickup photo fix none row in_transit
      (text "items secured (photo)")

-- `confirmPickup`
unfoldable pub confirm_pickup : Distance → ℕ → ℕ → Text → Option RawFix → Db → Result Order × Db
unfolding pickup_tx
confirm_pickup distance_meters now order_id actor fix =
    with_critical_transaction (pickup_tx distance_meters now order_id actor (parse_fix fix))

-- What the transaction of `confirmDelivery` returns.
pub data Outcome : Type 0 where
  -- `{ fail: 'no_code' }`, `{ fail: 'locked' }`, `{ fail: 'wrong', left }`, `{ order }`
  no_handoff locked : Outcome
  wrong : ℕ → Outcome
  done : Order → Outcome

-- the two ways to deliver: a code, or a reason for not having one
pub data Evidence : Type 0 where
  by_code by_reason : Text → Evidence

-- the branch with a code, once the handoff row is read
unfoldable pub try_code : Distance → ℕ → ℕ → Text → Option Fix → Order → Text → Handoff → Tx Outcome
try_code distance_meters now order_id actor fix row given h db =
    if leb handoff_max_attempts h.attempts
    then ok (locked, db)
    else (if handoff_matches h.code given
        then (do
          modify (update_handoff order_id (λ x. record x { verified_at = some now }))
          order ←
              prove distance_meters now order_id actor delivery code fix none row delivered
                (text "delivered (customer code)")
          pure (done order))
            db
        else (do
          modify (update_handoff order_id (λ x. record x { attempts = suc x.attempts }))
          pure (wrong (handoff_max_attempts - h.attempts - 1)))
            db)

-- the branch without a code
unfoldable pub by_photo : Distance → ℕ → ℕ → Text → Option Fix → Order → Text → Tx Outcome
by_photo distance_meters now order_id actor fix row reason = do
  taken ← gets (λ db. has_photo order_id delivery_proof db.photos)
  throw_if (not taken) (proof_error (text "take a photo at the door first") 422 none)
  order ←
      prove distance_meters now order_id actor delivery photo_no_code fix (some reason) row
        delivered (text "delivered without code: " ++ reason)
  pure (done order)

unfoldable pub use_evidence : Distance → ℕ → ℕ → Text → Option Fix → Order → Evidence → Tx Outcome
use_evidence distance_meters now order_id actor fix row (by_code given) db =
    elim (find_handoff order_id db.handoffs) [
      | none ↦ ok (no_handoff, db)
      | some h ↦ try_code distance_meters now order_id actor fix row given h db
    ]
use_evidence distance_meters now order_id actor fix row (by_reason reason) db =
    by_photo distance_meters now order_id actor fix row reason db

unfoldable pub delivery_tx : Distance → ℕ → ℕ → Text → Option Fix → Evidence → Tx Outcome
delivery_tx distance_meters now order_id actor fix evidence = do
  row ← lock_order_at order_id in_transit (text "this order is not out for delivery")
  use_evidence distance_meters now order_id actor fix row evidence

-- The outcomes that are thrown after the commit, so that a wrong try stays counted.
unfoldable pub report : Result Outcome × Db → Result Order × Db
report (err e, db) = (err e, db)
report (ok (done order), db) = (ok order, db)
report (ok (wrong left), db) = (
  err (
      proof_error
        (if ltb 0 left
          then text "wrong code — " ++ decimal left ++ text " tries left"
          else text "wrong code — no tries left")
        422 (some left)),
  db,
)
report (ok locked, db) = (
  err (proof_error (text "too many wrong codes — deliver with a photo instead") 423 (some 0)),
  db,
)
report (ok no_handoff, db) = (
  err (
      proof_error (text "this order has no delivery code — deliver with a photo instead") 409 none),
  db,
)

reason_evidence : Option Text → Result Evidence
reason_evidence none =
    err (proof_error (text "enter the customer's code, or say why you can't") 400 none)
reason_evidence (some r) = ok (by_reason r)

-- the tests before the transaction; an empty code is none
unfoldable pub evidence_of : Option Text → Option Text → Result Evidence
unfolding reason_evidence
evidence_of (some (c ∷ s)) reason =
    if is_handoff_code (c ∷ s)
    then ok (by_code (c ∷ s))
    else err (proof_error (text "the code is 4 digits") 400 none)
evidence_of _ reason = reason_evidence (clean_reason reason)

unfoldable pub deliver_with :
    Result Evidence → Distance → ℕ → ℕ → Text → Option Fix → Db → Result Order × Db
deliver_with (err e) distance_meters now order_id actor fix db = (err e, db)
deliver_with (ok evidence) distance_meters now order_id actor fix db =
    report
      (with_critical_transaction (delivery_tx distance_meters now order_id actor fix evidence) db)

-- `confirmDelivery`
unfoldable pub confirm_delivery :
    Distance → ℕ → ℕ → Text → Option Text → Option Text → Option RawFix → Db → Result Order × Db
confirm_delivery distance_meters now order_id actor given reason fix db =
    deliver_with (evidence_of given reason) distance_meters now order_id actor (parse_fix fix) db
