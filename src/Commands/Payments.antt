-- ===== src/Commands/Payments.antt =====
-- Payments (backend/src/commands/payments.js). `to_upper` is the runtime's `toUpperCase`, and
-- `to_cents` stands for `Math.round(Number(v) * 100)`: `none` is NaN or a negative amount, neither
-- of which equals a total.
pub mod Confirmation
use ghost_merchant.Base.{
  ℕ, ◌+◌, Bool, true, false, Option, none, some, List, [], ◌∷◌, ◌++◌, ◌==◌, not, if◌then◌else◌,
  or_else,
}
use ghost_merchant.Base.Decimal.{decimal}
use ghost_merchant.Base.Text.{Text, text, text_eq}
use ghost_merchant.Domain.StateMachine.{
  Status, pending_payment, paid_unassigned, dispatched, same_status,
}
use ghost_merchant.Domain.PaymentRef.{normalize_reference}
use ghost_merchant.Domain.Wallets.{Wallet}
use ghost_merchant.Domain.Rotation.{Candidate}
use ghost_merchant.Db.{Db, Order, Payment, Event, Detail}
use ghost_merchant.Db.Tx.{
  Tx, Result, ok, err, Error, payment_error, amount_mismatch, reference_used, unique_violation,
  ◌>>=◌, ◌>>◌, pure, throw, gets, or_throw, throw_if, modify, with_transaction,
  with_critical_transaction,
}
use ghost_merchant.Db.Rows.{order_of, update_order, enqueue, audit, find_receipt}
use ghost_merchant.Commands.Orders.{transition_order, insert_message}
use ghost_merchant.Commands.Dispatch.{dispatch_order}

-- `referenceOrThrow`; a missing reference reads as the empty string
unfoldable pub reference_or_throw : (Text → Text) → Option Text → Result Text
reference_or_throw to_upper raw = elim (normalize_reference to_upper (or_else raw [])) [
  | none ↦ err (payment_error (text "that does not look like a transaction reference") 400)
  | some ref ↦ ok ref
]

unfoldable pub find_wallet : Text → List Wallet → Option Wallet
find_wallet id [] = none
find_wallet id (w ∷ ws) = if text_eq w.id id then some w else find_wallet id ws

-- `walletOrThrow`
unfoldable pub wallet_or_throw : Option Text → List Wallet → Result (Option Wallet)
unfolding find_wallet
wallet_or_throw none wallets = ok none
wallet_or_throw (some []) wallets = ok none
wallet_or_throw (some (c ∷ s)) wallets = elim (find_wallet (c ∷ s) wallets) [
  | none ↦ err (payment_error (text "unknown wallet") 400)
  | some w ↦ ok (some w)
]

-- `ref || null`
abbrev pub or_null : Text → Option Text
or_null [] = none
or_null (c ∷ s) = some (c ∷ s)

-- the sentence that `claimPayment` posts
unfoldable pub claim_body : Text → Option Wallet → Text
claim_body ref wallet =
    text "Customer says they have paid"
    ++ (elim wallet [ none ↦ [] | some w ↦ text " with " ++ w.name ])
    ++ text "."
    ++ (elim ref [ [] ↦ [] | c ∷ s ↦ text " Reference: " ++ c ∷ s ])

abbrev pub wallet_id : Option Wallet → Option Text
wallet_id none = none
wallet_id (some w) = some w.id

abbrev wallet_name : Option Wallet → Option Text
wallet_name none = none
wallet_name (some w) = some w.name

unfoldable pub claim_body_tx : ℕ → ℕ → Text → Option Wallet → Tx Order
claim_body_tx now order_id ref wallet = do
  found ← gets (order_of order_id)
  order ← or_throw found (payment_error (text "order not found") 404)
  throw_if (not (same_status order.status pending_payment))
      (payment_error (text "this order is already paid") 409)
  updated ← update_order order_id (λ o. record o {
    payment_claimed_at = some now;
    payment_claim_ref = or_null ref;
    payment_claim_wallet = wallet_id wallet;
  })
  insert_message now order_id (text "system") (claim_body ref wallet) none
  enqueue now (
      Event.payment_claimed order_id (or_null ref) (wallet_id wallet) (wallet_name wallet)
        updated.payment_claimed_at)
  pure updated

unfoldable pub claim_checked : Result Text → Result (Option Wallet) → ℕ → ℕ → Db → Result Order × Db
claim_checked (err e) wallet now order_id db = (err e, db)
claim_checked (ok ref) (err e) now order_id db = (err e, db)
claim_checked (ok ref) (ok wallet) now order_id db =
    with_transaction (claim_body_tx now order_id ref wallet) db

-- `claimPayment`
unfoldable pub claim_payment :
    (Text → Text) → ℕ → ℕ → Option Text → Option Text → List Wallet → Db → Result Order × Db
claim_payment to_upper now order_id reference wallet wallets db =
    claim_checked (reference_or_throw to_upper reference) (wallet_or_throw wallet wallets) now
      order_id db

-- An amount that is given has to be the total, to the cent.
unfoldable pub amount_matches : (Text → Option ℕ) → Option Text → ℕ → Bool
amount_matches to_cents none total = true
amount_matches to_cents (some a) total = elim (to_cents a) [ none ↦ false | some c ↦ c == total ]

-- The insertion, under the unique index on `telecom_receipt_id`.
unfoldable pub add_payment : Payment → Tx (Unit {0})
add_payment p db = elim (find_receipt p.telecom_receipt_id db.payments) [
  | some used ↦ err unique_violation
  | none ↦ ok (tt, record db { payments = db.payments ++ p ∷ [] })
]

-- the tests of `confirmPayment`, under the row lock
unfoldable pub check_confirmable : (Text → Option ℕ) → ℕ → Text → Option Text → Tx Order
unfolding amount_matches
check_confirmable to_cents order_id ref amount = do
  found ← gets (order_of order_id)
  order ← or_throw found (payment_error (text "order not found") 404)
  throw_if (not (same_status order.status pending_payment))
      (payment_error (text "this order is not waiting for payment") 409)
  throw_if (not (amount_matches to_cents amount order.total_amount))
      (amount_mismatch (or_else amount []) order.total_amount)
  used ← gets (λ db. find_receipt ref db.payments)
  elim used [ none ↦ pure order | some p ↦ throw (reference_used ref p.order_id) ]

-- the row of `tx.transaction.create`
unfoldable pub payment_row : ℕ → Text → Text → Order → Payment
payment_row order_id ref actor order = record {
  order_id = order_id;
  telecom_receipt_id = ref;
  sender_msisdn = order.user_phone;
  amount = order.total_amount;
  matched = true;
  provider = text "manual";
  sender_name = actor;
}

abbrev dispatched_row : Order → Option Candidate → Order
dispatched_row updated none = updated
dispatched_row updated (some d) = record updated { status = dispatched; driver_id = some d.id }

-- the steps of `confirmPayment` between the tests and the dispatch
unfoldable pub record_payment : ℕ → ℕ → Text → Text → Order → Tx Order
record_payment now order_id ref actor order = do
  add_payment (payment_row order_id ref actor order)
  updated ←
      transition_order now order_id paid_unassigned actor
        (some (text "payment confirmed (ref " ++ ref ++ text ")"))
  enqueue now (Event.payment_received order_id order.total_amount ref)
  modify (
      audit actor (text "payment.confirmed") (some (text "order:" ++ decimal order_id))
        (Detail.confirmation ref order.total_amount))
  pure updated

unfoldable pub confirm_body_tx : (Text → Option ℕ) → ℕ → ℕ → Text → Option Text → Text → Tx Order
confirm_body_tx to_cents now order_id ref amount actor = do
  order ← check_confirmable to_cents order_id ref amount
  updated ← record_payment now order_id ref actor order
  driver ← dispatch_order now order_id
  pure (dispatched_row updated driver)

-- the test that there is a reference
unfoldable pub confirm_checked :
    Result Text → (Text → Option ℕ) → ℕ → ℕ → Option Text → Text → Db → Result Order × Db
confirm_checked (err e) to_cents now order_id amount actor db = (err e, db)
confirm_checked (ok []) to_cents now order_id amount actor db =
    (err (payment_error (text "enter the transaction number from the payment") 400), db)
confirm_checked (ok (c ∷ s)) to_cents now order_id amount actor db =
    with_critical_transaction (confirm_body_tx to_cents now order_id (c ∷ s) amount actor) db

-- `confirmPayment`
unfoldable pub confirm_payment :
    (Text → Text)
    → (Text → Option ℕ)
    → ℕ
    → ℕ
    → Option Text
    → Option Text
    → Text
    → Db
    → Result Order × Db
confirm_payment to_upper to_cents now order_id reference amount actor db =
    confirm_checked (reference_or_throw to_upper reference) to_cents now order_id amount actor db
