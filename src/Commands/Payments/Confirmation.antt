-- ===== src/Commands/Payments/Confirmation.antt =====
-- What a confirmed payment does, and that it is confirmed once.
use ghost_merchant.Base.{
  ℕ, ◌≡◌, refl, ap, ap₂, ◌∙◌, sym, subst, true, Option, none, some, List, [], ◌∷◌, ◌++◌, arith,
  Option-cases, inl, inr, ◌⊎◌,
}
use ghost_merchant.Base.Decimal.{decimal}
use ghost_merchant.Base.Text.{Text, text, text_eq_refl}
use ghost_merchant.Domain.StateMachine.{pending_payment, dispatched, paid_unassigned}
use ghost_merchant.Domain.Rotation.{Candidate}
use ghost_merchant.Db.{Db, Order, Payment, Event, Detail}
use ghost_merchant.Db.Tx.{
  Result, ok, err, Error, ◌>>=◌, ◌>>◌, pure, >>=-eq-ok, modify, with_critical_transaction-ok,
  with_critical_transaction-cases, Refused,
}
use ghost_merchant.Db.Rows.{order_of, find_receipt, enqueue, audit}
use ghost_merchant.Commands.Orders.{transition_order}
use ghost_merchant.Commands.Orders.Transition.{
  Transits, moved, transition_order-Transits, order_of-Transits,
}
use ghost_merchant.Commands.Dispatch.{dispatch_order}
use ghost_merchant.Commands.Dispatch.Assign.{Dispatches, dispatch_order-cases, order_of-Assigned}
use ghost_merchant.Commands.Payments.{
  amount_matches, add_payment, check_confirmable, record_payment, payment_row, dispatched_row,
  confirm_body_tx, reference_or_throw, confirm_checked, confirm_payment,
}

-- The amount that was given, if any, is the total, to the cent.
pub Exact : (Text → Option ℕ) → Option Text → ℕ → Type 0
Exact to_cents amount total =
    (amount ≡ none) ⊎ ((a : Text) × (amount ≡ some a) × (to_cents a ≡ some total))

amount_matches-Exact :
    (to_cents : Text → Option ℕ) (amount : Option Text) (total : ℕ)
    → amount_matches to_cents amount total ≡ true
    → Exact to_cents amount total
unfolding amount_matches Exact
amount_matches-Exact to_cents none total h = inl refl
amount_matches-Exact to_cents (some a) total h = elim (Option-cases (to_cents a)) [
  | inl unread ↦ absurd (ground arith)
  | inr (c, known) ↦ inr (a, refl, ground arith)
]

-- What the tests of `confirmPayment` establish.
pub record Confirmable (to_cents : Text → Option ℕ) (id : ℕ) (ref : Text) (amount : Option Text)
    (before : Order) (db : Db) : Type 0 where
  pub found : order_of id db ≡ some before
  pub pending : before.status ≡ pending_payment
  pub exact : Exact to_cents amount before.total_amount
  pub unused : find_receipt ref db.payments ≡ none

check_confirmable-found :
    (to_cents : Text → Option ℕ) (id : ℕ) (ref : Text) (amount : Option Text) (db db' : Db)
    (before order : Order)
    → order_of id db ≡ some before
    → check_confirmable to_cents id ref amount db ≡ ok (order, db')
    → Confirmable to_cents id ref amount before db × (order ≡ before) × (db' ≡ db)
unfolding check_confirmable
check_confirmable-found to_cents id ref amount db db' before order found h =
    ground (arith, amount_matches-Exact to_cents amount before.total_amount)

check_confirmable-Confirmable :
    (to_cents : Text → Option ℕ) (id : ℕ) (ref : Text) (amount : Option Text) (db db' : Db)
    (order : Order)
    → check_confirmable to_cents id ref amount db ≡ ok (order, db')
    → Confirmable to_cents id ref amount order db × (db' ≡ db)
unfolding check_confirmable
check_confirmable-Confirmable to_cents id ref amount db db' order h =
    elim (Option-cases (order_of id db)) [
      | inl missing ↦ absurd (ground arith)
      | inr (before, found) ↦
          ground (arith, check_confirmable-found to_cents id ref amount db db' before order found h)
    ]

-- The tables with the payment.
abbrev pub with_payment : Payment → Db → Db
with_payment p db = record db { payments = db.payments ++ p ∷ [] }

abbrev pub paid_note : Text → Option Text
paid_note ref = some (text "payment confirmed (ref " ++ ref ++ text ")")

record_payment_lem :
    (now id : ℕ) (ref actor : Text) (before : Order) (db : Db)
    → find_receipt ref db.payments ≡ none
    → record_payment now id ref actor before db
      ≡ (transition_order now id paid_unassigned actor (paid_note ref) >>= λ updated.
            (enqueue now (Event.payment_received id before.total_amount ref)
              >> (modify (
                    audit actor
                      (text "payment.confirmed")
                      (some (text "order:" ++ decimal id))
                      (Detail.confirmation ref before.total_amount))
                  >> pure updated)))
          (with_payment (payment_row id ref actor before) db)
unfolding record_payment add_payment payment_row
record_payment_lem now id ref actor before db unused = ground arith

pub record_payment-Transits :
    (now id : ℕ) (ref actor : Text) (before o : Order) (db db' : Db)
    → order_of id db ≡ some before
    → find_receipt ref db.payments ≡ none
    → record_payment now id ref actor before db ≡ ok (o, db')
    → Transits now id paid_unassigned actor
        (paid_note ref)
        before
        (with_payment (payment_row id ref actor before) db)
        db'
      × (o ≡ moved now paid_unassigned before)
record_payment-Transits now id ref actor before o db db' found unused h =
    let (o₁, db₁, moves, rest) =
      >>=-eq-ok (transition_order now id paid_unassigned actor (paid_note ref))
        (λ updated.
          (enqueue now (Event.payment_received id before.total_amount ref)
            >> (modify (
                  audit actor (text "payment.confirmed") (some (text "order:" ++ decimal id))
                    (Detail.confirmation ref before.total_amount))
                >> pure updated)))
        (with_payment (payment_row id ref actor before) db)
        (sym (record_payment_lem now id ref actor before db unused) ∙ h) in
    let t =
      transition_order-Transits now id paid_unassigned actor (paid_note ref)
        (with_payment (payment_row id ref actor before) db) db₁ before o₁ found moves in
    ground arith

-- A confirmation that went through, with the row that it returned.
pub record Confirmed (to_cents : Text → Option ℕ) (now id : ℕ) (ref : Text) (amount : Option Text)
    (actor : Text) (before o : Order) (db db' : Db) : Type 0 where
  pub checks : Confirmable to_cents id ref amount before db
  pub payments : db'.payments ≡ db.payments ++ payment_row id ref actor before ∷ []
  pub covers : (payment_row id ref actor before).amount ≡ before.total_amount
  pub pays : (payment_row id ref actor before).order_id ≡ id
  pub receipt : (payment_row id ref actor before).telecom_receipt_id ≡ ref
  pub row : order_of id db' ≡ some o
  pub status : (o.status ≡ paid_unassigned) ⊎ (o.status ≡ dispatched)

dispatched-row :
    (now id : ℕ) (before : Order) (r : Option Candidate) (db db' : Db)
    → order_of id db ≡ some (moved now paid_unassigned before)
    → Dispatches now id r db db'
    → let o = dispatched_row (moved now paid_unassigned before) r in
      (order_of id db' ≡ some o)
      × ((o.status ≡ paid_unassigned) ⊎ (o.status ≡ dispatched))
      × (db'.payments ≡ db.payments)
dispatched-row now id before r db db' found (inl (nobody, same)) = ground arith
dispatched-row now id before r db db' found (inr (d, b, some_d, fb, a)) =
    ground (arith, order_of-Assigned now id d b db db' id a, a.payments)

-- A confirmation in its two halves: the payment with the transition, and the dispatch.
pub record Halves (to_cents : Text → Option ℕ) (now id : ℕ) (ref : Text) (amount : Option Text)
    (actor : Text) (before o : Order) (db db' : Db) : Type 0 where
  pub between : Db
  pub driver : Option Candidate
  pub checks : Confirmable to_cents id ref amount before db
  pub transits :
      Transits now id paid_unassigned actor
        (paid_note ref)
        before
        (with_payment (payment_row id ref actor before) db)
        between
  pub dispatches : Dispatches now id driver between db'
  pub row : o ≡ dispatched_row (moved now paid_unassigned before) driver

pub confirm_body_tx-Halves :
    (to_cents : Text → Option ℕ) (now id : ℕ) (ref : Text) (amount : Option Text) (actor : Text)
    (o : Order) (db db' : Db)
    → confirm_body_tx to_cents now id ref amount actor db ≡ ok (o, db')
    → (before : Order) × Halves to_cents now id ref amount actor before o db db'
unfolding confirm_body_tx
confirm_body_tx-Halves to_cents now id ref amount actor o db db' h =
    let (before, db₀, checked, rest) =
      >>=-eq-ok (check_confirmable to_cents id ref amount)
        (λ order. record_payment now id ref actor order >>= λ updated.
          dispatch_order now id >>= λ driver. pure (dispatched_row updated driver))
        db h in
    let (c, same) = check_confirmable-Confirmable to_cents id ref amount db db₀ before checked in
    let (u, db₁, recorded, rest₁) =
      >>=-eq-ok (record_payment now id ref actor before)
        (λ updated. dispatch_order now id >>= λ driver. pure (dispatched_row updated driver)) db
        (subst
          (λ x.
            (record_payment now id ref actor before >>= λ updated.
            dispatch_order now id >>= λ driver. pure (dispatched_row updated driver))
              x
            ≡ ok (o, db'))
          same rest) in
    let (t, u_is) =
      record_payment-Transits now id ref actor before u db db₁ c.found c.unused recorded in
    let (r, db₂, sent, rest₂) =
      >>=-eq-ok (dispatch_order now id) (λ driver. pure (dispatched_row u driver)) db₁ rest₁ in
    let ends : db₂ ≡ db' = ground arith in
    (
      before,
      record {
        between = db₁;
        driver = r;
        checks = c;
        transits = t;
        dispatches =
            subst (Dispatches now id r db₁) ends (dispatch_order-cases now id db₁ db₂ r sent);
        row = ground arith;
      },
    )

confirm_body_tx-Confirmed :
    (to_cents : Text → Option ℕ) (now id : ℕ) (ref : Text) (amount : Option Text) (actor : Text)
    (o : Order) (db db' : Db)
    → confirm_body_tx to_cents now id ref amount actor db ≡ ok (o, db')
    → (before : Order) × Confirmed to_cents now id ref amount actor before o db db'
confirm_body_tx-Confirmed to_cents now id ref amount actor o db db' h =
    let (before, v) = confirm_body_tx-Halves to_cents now id ref amount actor o db db' h in
    let at : order_of id v.between ≡ some (moved now paid_unassigned before) = ground (
      arith,
      order_of-Transits now id paid_unassigned actor (paid_note ref) before
          (with_payment (payment_row id ref actor before) db) v.between id v.transits,
      v.checks.found,
    ) in
    let final = dispatched-row now id before v.driver v.between db' at v.dispatches in
    (
      before,
      record {
        checks = v.checks;
        payments = final.2 ∙ v.transits.payments;
        covers = unfold payment_row in refl;
        pays = unfold payment_row in refl;
        receipt = unfold payment_row in refl;
        row = final.0 ∙ ap some (sym v.row);
        status =
            subst (λ x. (x.status ≡ paid_unassigned) ⊎ (x.status ≡ dispatched)) (sym v.row) final.1;
      },
    )

-- A call is refused, or it is the transaction of its reference, and that went through.
abbrev Runs :
    Result Text → (Text → Option ℕ) → ℕ → ℕ → Option Text → Text → Result Order × Db → Db → Type 0
Runs r to_cents now id amount actor p db =
    (ref : Text) × (o : Order) × (db' : Db) × (r ≡ ok ref)
    × (p ≡ (ok o, db'))
    × (confirm_body_tx to_cents now id ref amount actor db ≡ ok (o, db'))

confirm_checked-cases :
    (r : Result Text) (to_cents : Text → Option ℕ) (now id : ℕ) (amount : Option Text)
    (actor : Text) (db : Db)
    → let p = confirm_checked r to_cents now id amount actor db in
      Refused p db ⊎ Runs r to_cents now id amount actor p db
unfolding confirm_checked
confirm_checked-cases (err e) to_cents now id amount actor db = inl (refl, e, refl)
confirm_checked-cases (ok []) to_cents now id amount actor db = inl (refl, _, refl)
confirm_checked-cases (ok (c ∷ s)) to_cents now id amount actor db =
    let body = confirm_body_tx to_cents now id (c ∷ s) amount actor in
    elim (with_critical_transaction-cases body db) [
      | inl (o, db', e) ↦ inr (c ∷ s, o, db', refl, e, with_critical_transaction-ok body db o db' e)
      | inr refused ↦ inl refused
    ]

-- A confirmation that goes through was for an order waiting for payment, with the exact amount
-- where one was given and a reference that no payment had; it records that payment and no other,
-- with the order's total, and the row that it returns is the order's row, paid or dispatched.
pub confirm_payment-Confirmed :
    (to_upper : Text → Text) (to_cents : Text → Option ℕ) (now id : ℕ)
    (reference amount : Option Text) (actor : Text) (db db' : Db) (o : Order)
    → confirm_payment to_upper to_cents now id reference amount actor db ≡ (ok o, db')
    → (ref : Text) × (before : Order) × (reference_or_throw to_upper reference ≡ ok ref)
      × Confirmed to_cents now id ref amount actor before o db db'
unfolding confirm_payment
confirm_payment-Confirmed to_upper to_cents now id reference amount actor db db' o h =
    elim (confirm_checked-cases (reference_or_throw to_upper reference) to_cents now id amount actor
      db) [
        | inl (_, e, q) ↦ absurd (ok_ne_err e (ap (λ p. p.0) (sym h) ∙ q))
        | inr (ref, o₁, db₁, known, p, ran) ↦
            let (before, c) = confirm_body_tx-Confirmed to_cents now id ref amount actor o db db' (
              ran
              ∙ ap₂ (λ x y. ok (x, y)) (ok_injective (ap (λ q. q.0) (sym p ∙ h)))
                  (ap (λ q. q.1) (sym p ∙ h))) in
            (ref, before, known, c)
      ]
  where
    ok_ne_err : (e : Error) → ok o ≡ err e → ⊥
    ok_ne_err e = cc

    ok_injective : {a b : Order} → ◌≡◌ {A = Result Order} (ok a) (ok b) → a ≡ b
    ok_injective e = cc

pub find_receipt-append :
    (ref : Text) (ps : List Payment) (p : Payment)
    → find_receipt ref ps ≡ none
    → p.telecom_receipt_id ≡ ref
    → find_receipt ref (ps ++ p ∷ []) ≡ some p
find_receipt-append ref [] p h e = ground (arith, text_eq_refl ref)
find_receipt-append ref (x ∷ ps) p h e = ground (arith, find_receipt-append ref ps p)

-- A confirmation of a reference that was used, or of an order that does not wait for payment, is
-- refused.
confirm_payment-Refused :
    (to_upper : Text → Text) (to_cents : Text → Option ℕ) (now id : ℕ)
    (reference amount : Option Text) (actor : Text) (db : Db)
    → ((ref : Text)
        → reference_or_throw to_upper reference ≡ ok ref
        → (before : Order) → Confirmable to_cents id ref amount before db
        → ⊥)
    → Refused (confirm_payment to_upper to_cents now id reference amount actor db) db
unfolding confirm_payment
confirm_payment-Refused to_upper to_cents now id reference amount actor db never =
    elim (confirm_checked-cases (reference_or_throw to_upper reference) to_cents now id amount actor
      db) [
        | inl refused ↦ refused
        | inr (ref, o, db₁, known, p, ran) ↦
            let (before, c) =
              confirm_body_tx-Confirmed to_cents now id ref amount actor o db db₁ ran in
            absurd (never ref known before c.checks)
      ]

-- One payment pays one order, once: after a confirmation that went through, to confirm the same
-- order again with any reference, or any order with a reference of the same normal form, is
-- refused and changes nothing.
pub confirm_payment_once :
    (to_upper : Text → Text) (to_cents : Text → Option ℕ) (now id : ℕ)
    (reference amount : Option Text) (actor : Text) (db db' : Db) (o : Order) (later other : ℕ)
    (again amount' : Option Text) (who : Text)
    → confirm_payment to_upper to_cents now id reference amount actor db ≡ (ok o, db')
    → (other ≡ id) ⊎ (reference_or_throw to_upper again ≡ reference_or_throw to_upper reference)
    → Refused (confirm_payment to_upper to_cents later other again amount' who db') db'
confirm_payment_once to_upper to_cents now id reference amount actor db db' o later other again
      amount' who h same =
    let (ref, before, known, c) =
      confirm_payment-Confirmed to_upper to_cents now id reference amount actor db db' o h in
    confirm_payment-Refused to_upper to_cents later other again amount' who db'
      λ ref' known' b k. clash ref before known c ref' known' b k same
  where
    clash :
        (ref : Text) (before : Order)
        → reference_or_throw to_upper reference ≡ ok ref
        → Confirmed to_cents now id ref amount actor before o db db'
        → (ref' : Text) → reference_or_throw to_upper again ≡ ok ref'
        → (b : Order) → Confirmable to_cents other ref' amount' b db'
        → (other ≡ id) ⊎ (reference_or_throw to_upper again ≡ reference_or_throw to_upper reference)
        → ⊥
    clash ref before known c ref' known' b k (inl e) =
        ground (arith, c.row, k.found, k.pending, c.status)
    clash ref before known c ref' known' b k (inr e) = ground (
      arith,
      k.unused,
      c.payments,
      find_receipt-append ref db.payments (payment_row id ref actor before) c.checks.unused
          (unfold payment_row in refl),
    )
