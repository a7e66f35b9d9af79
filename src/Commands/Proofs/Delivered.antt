-- ===== src/Commands/Proofs/Delivered.antt =====
-- What a pickup or a delivery that goes through rests on.
use ghost_merchant.Base.{
  ℕ, ◌<◌, ◌≡◌, refl, subst, true, Option, none, some, [], ◌∷◌, ◌++◌, arith, not, Option-cases, inl,
  inr,
}
use ghost_merchant.Base.Text.{Text, text}
use ghost_merchant.Domain.StateMachine.{Status, dispatched, in_transit, delivered}
use ghost_merchant.Domain.Evidence.{
  Fix, RawFix, parse_fix, build_proof, handoff_matches, handoff_max_attempts,
}
use ghost_merchant.Db.{
  Db, Order, Handoff, Proof, Step, pickup, delivery, Method, photo, code, photo_no_code,
  pickup_proof, delivery_proof,
}
use ghost_merchant.Db.Tx.{
  Result, ok, err, ◌>>=◌, ◌>>◌, >>=-eq-ok, throw_if, gets, with_critical_transaction-ok,
  throw_if-ok, proof_error,
}
use ghost_merchant.Db.Rows.{order_of, find_handoff, update_handoff, has_photo, find_proof}
use ghost_merchant.Commands.Orders.Transition.{Transits, moved, transition_order-Transits}
use ghost_merchant.Commands.Proofs.{
  Distance, Outcome, done, wrong, locked, no_handoff, Evidence, evidence_of, deliver_with,
  confirm_delivery, report, by_code, by_reason, lock_order_at, proof_row, add_proof, prove,
  pickup_tx, try_code, by_photo, use_evidence, delivery_tx, confirm_pickup,
}

abbrev pub with_proof : Proof → Db → Db
with_proof p db = record db { proofs = db.proofs ++ p ∷ [] }

-- A step of the driver: one row of evidence, the first of its kind, and the transition.
pub record Proves (now id : ℕ) (actor : Text) (step : Step) (method : Method) (to : Status)
    (before o : Order) (db db' : Db) : Type 0 where
  pub proof : Proof
  pub is_step : proof.step ≡ step
  pub is_method : proof.method ≡ method
  pub of_order : proof.order_id ≡ id
  pub by : proof.actor ≡ actor
  pub first : find_proof id step db.proofs ≡ none
  pub why : Option Text
  pub transits : Transits now id to actor why before (with_proof proof db) db'
  pub row : o ≡ moved now to before

pub lock_order_at-ok :
    (id : ℕ) (status : Status) (complaint : Text) (db db' : Db) (o : Order)
    → lock_order_at id status complaint db ≡ ok (o, db')
    → (order_of id db ≡ some o) × (o.status ≡ status) × (db' ≡ db)
unfolding lock_order_at
lock_order_at-ok id status complaint db db' o h = elim (Option-cases (order_of id db)) [
  | inl missing ↦ absurd (ground arith)
  | inr (b, found) ↦ ground arith
]

prove-Proves :
    (dist : Distance) (now id : ℕ) (actor : Text) (step : Step) (method : Method) (fix : Option Fix)
    (reason : Option Text) (before : Order) (to : Status) (note : Text) (db db' : Db) (o : Order)
    → order_of id db ≡ some before
    → prove dist now id actor step method fix reason before to note db ≡ ok (o, db')
    → Proves now id actor step method to before o db db'
unfolding prove add_proof proof_row build_proof
prove-Proves dist now id actor step method fix reason before to note db db' o found h =
    elim (Option-cases (find_proof id step db.proofs)) [
      | inl first ↦
          let p = proof_row now id actor (build_proof dist step method fix before reason) in
          let (t, row) =
            transition_order-Transits now id to actor (some note) (with_proof p db) db' before o
              found (ground arith) in
          record {
            proof = p;
            is_step = refl;
            is_method = refl;
            of_order = refl;
            by = refl;
            first = first;
            why = some note;
            transits = t;
            row = row;
          }
      | inr (x, there) ↦ absurd (ground arith)
    ]

pub pickup_tx-Proves :
    (dist : Distance) (now id : ℕ) (actor : Text) (fix : Option Fix) (db db' : Db) (o : Order)
    → pickup_tx dist now id actor fix db ≡ ok (o, db')
    → (before : Order) × (order_of id db ≡ some before)
      × (before.status ≡ dispatched)
      × (has_photo id pickup_proof db.photos ≡ true)
      × Proves now id actor pickup photo in_transit before o db db'
unfolding pickup_tx
pickup_tx-Proves dist now id actor fix db db' o ran =
    let (before, db₀, held, rest) =
      >>=-eq-ok (lock_order_at id dispatched (text "this order is not waiting for pickup"))
        (λ row. gets (λ x. has_photo id pickup_proof x.photos) >>= λ taken.
          (throw_if (not taken) (proof_error (text "take a photo of the items first") 422 none)
            >> prove dist now id actor pickup photo fix none row in_transit
                (text "items secured (photo)")))
        db ran in
    let (found, waits, same) = lock_order_at-ok id dispatched _ db db₀ before held in
    let (taken, proved) = throw_if-ok (not (has_photo id pickup_proof db₀.photos)) _ _ db₀ rest in
    (
      before,
      found,
      waits,
      ground arith,
      prove-Proves dist now id actor pickup photo fix none before in_transit
          (text "items secured (photo)") db db' o found
          (subst
            (λ x.
              prove dist now id actor pickup photo fix none before in_transit
                (text "items secured (photo)") x
              ≡ ok (o, db'))
            same proved),
    )

-- The goods leave with the driver only with a photo of them on record, from DISPATCHED, and the
-- evidence row is written with the transition.
pub confirm_pickup-Proves :
    (dist : Distance) (now id : ℕ) (actor : Text) (fix : Option RawFix) (db db' : Db) (o : Order)
    → confirm_pickup dist now id actor fix db ≡ (ok o, db')
    → (before : Order) × (order_of id db ≡ some before)
      × (before.status ≡ dispatched)
      × (has_photo id pickup_proof db.photos ≡ true)
      × Proves now id actor pickup photo in_transit before o db db'
unfolding confirm_pickup
confirm_pickup-Proves dist now id actor fix db db' o h =
    pickup_tx-Proves dist now id actor (parse_fix fix) db db' o
      (with_critical_transaction-ok (pickup_tx dist now id actor (parse_fix fix)) db o db' h)

-- What a delivery rests on: the customer's code, within the tries that it has, or a photo with a
-- reason.
pub data Backed (now id : ℕ) (actor : Text) (before o : Order) (db db' : Db)
    : Evidence → Type 0 where
  coded :
      (given : Text) (h : Handoff)
      → find_handoff id db.handoffs ≡ some h
      → h.attempts < handoff_max_attempts
      → handoff_matches h.code given ≡ true
      → Proves now id actor delivery code delivered before o
          (update_handoff id (λ x. record x { verified_at = some now }) db)
          db'
      → Backed now id actor before o db db' (by_code given)
  photographed :
      (reason : Text)
      → has_photo id delivery_proof db.photos ≡ true
      → Proves now id actor delivery photo_no_code delivered before o db db'
      → Backed now id actor before o db db' (by_reason reason)

try_code-Backed :
    (dist : Distance) (now id : ℕ) (actor : Text) (fix : Option Fix) (before o : Order)
    (given : Text) (h : Handoff) (db db' : Db)
    → order_of id db ≡ some before
    → find_handoff id db.handoffs ≡ some h
    → try_code dist now id actor fix before given h db ≡ ok (done o, db')
    → Backed now id actor before o db db' (by_code given)
unfolding try_code
try_code-Backed dist now id actor fix before o given h db db' found there e =
    coded given h there (ground arith) (ground arith) (
      prove-Proves dist now id actor delivery code fix none before delivered
        (text "delivered (customer code)")
        (update_handoff id (λ x. record x { verified_at = some now }) db) db' o found
        (ground arith))

by_photo-Backed :
    (dist : Distance) (now id : ℕ) (actor : Text) (fix : Option Fix) (before o : Order)
    (reason : Text) (db db' : Db)
    → order_of id db ≡ some before
    → by_photo dist now id actor fix before reason db ≡ ok (done o, db')
    → Backed now id actor before o db db' (by_reason reason)
unfolding by_photo
by_photo-Backed dist now id actor fix before o reason db db' found e =
    photographed reason (ground arith) (
      prove-Proves dist now id actor delivery photo_no_code fix (some reason) before delivered
        (text "delivered without code: " ++ reason) db db' o found (ground arith))

use_evidence-Backed :
    (dist : Distance) (now id : ℕ) (actor : Text) (fix : Option Fix) (before o : Order)
    (ev : Evidence) (db db' : Db)
    → order_of id db ≡ some before
    → use_evidence dist now id actor fix before ev db ≡ ok (done o, db')
    → Backed now id actor before o db db' ev
unfolding use_evidence
use_evidence-Backed dist now id actor fix before o (by_code given) db db' found e =
    elim (Option-cases (find_handoff id db.handoffs)) [
      | inl missing ↦ absurd (ground arith)
      | inr (h, there) ↦
          try_code-Backed dist now id actor fix before o given h db db' found there (ground arith)
    ]
use_evidence-Backed dist now id actor fix before o (by_reason reason) db db' found e =
    by_photo-Backed dist now id actor fix before o reason db db' found e

report-ok :
    (p : Result Outcome × Db) (o : Order) (db : Db) → report p ≡ (ok o, db) → p ≡ (ok (done o), db)
unfolding report
report-ok (err e, db₁) o db h = ground arith
report-ok (ok (done x), db₁) o db h = ground arith
report-ok (ok (wrong n), db₁) o db h = ground arith
report-ok (ok locked, db₁) o db h = ground arith
report-ok (ok no_handoff, db₁) o db h = ground arith

pub delivery_tx-Backed :
    (dist : Distance) (now id : ℕ) (actor : Text) (fix : Option Fix) (ev : Evidence) (db db' : Db)
    (o : Order)
    → delivery_tx dist now id actor fix ev db ≡ ok (done o, db')
    → (before : Order) × (order_of id db ≡ some before)
      × (before.status ≡ in_transit)
      × Backed now id actor before o db db' ev
unfolding delivery_tx
delivery_tx-Backed dist now id actor fix ev db db' o ran =
    let (before, db₀, held, rest) =
      >>=-eq-ok (lock_order_at id in_transit (text "this order is not out for delivery"))
        (λ row. use_evidence dist now id actor fix row ev) db ran in
    let (found, out, same) =
      lock_order_at-ok id in_transit (text "this order is not out for delivery") db db₀ before
        held in
    (
      before,
      found,
      out,
      use_evidence-Backed dist now id actor fix before o ev db db' found (
          subst (λ x. use_evidence dist now id actor fix before ev x ≡ ok (done o, db')) same rest),
    )

deliver_with-Backed :
    (r : Result Evidence) (dist : Distance) (now id : ℕ) (actor : Text) (fix : Option Fix)
    (db db' : Db) (o : Order)
    → deliver_with r dist now id actor fix db ≡ (ok o, db')
    → (ev : Evidence) × (before : Order) × (r ≡ ok ev)
      × (order_of id db ≡ some before)
      × (before.status ≡ in_transit)
      × Backed now id actor before o db db' ev
unfolding deliver_with
deliver_with-Backed (err e) dist now id actor fix db db' o h = absurd (ground arith)
deliver_with-Backed (ok ev) dist now id actor fix db db' o h =
    let ran =
      with_critical_transaction-ok (delivery_tx dist now id actor fix ev) db (done o) db'
        (report-ok _ o db' h) in
    let (before, found, out, backed) = delivery_tx-Backed dist now id actor fix ev db db' o ran in
    (ev, before, refl, found, out, backed)

-- Nothing is delivered without evidence: a delivery that goes through was out for delivery, and
-- rests on the customer's code, given within the five tries, or on a door photo with a reason;
-- the evidence row, the first of the delivery, is written with the transition.
pub confirm_delivery-Backed :
    (dist : Distance) (now id : ℕ) (actor : Text) (given reason : Option Text) (fix : Option RawFix)
    (db db' : Db) (o : Order)
    → confirm_delivery dist now id actor given reason fix db ≡ (ok o, db')
    → (ev : Evidence) × (before : Order) × (evidence_of given reason ≡ ok ev)
      × (order_of id db ≡ some before)
      × (before.status ≡ in_transit)
      × Backed now id actor before o db db' ev
unfolding confirm_delivery
confirm_delivery-Backed dist now id actor given reason fix db db' o h =
    deliver_with-Backed (evidence_of given reason) dist now id actor (parse_fix fix) db db' o h
