-- ===== src/Routes/PaymentsWebhook.antt =====
-- The provider's callback (backend/src/routes/paymentsWebhook.js). The configuration, the keyed hash,
-- the reading of JSON and the spelling of a UUID by the database are parameters.
pub mod Replay
use ghost_merchant.Base.{
  ℕ, Bool, true, false, not, ◌&&◌, Option, none, some, or_else, List, [], ◌∷◌, ◌++◌, ◌==◌,
  if◌then◌else◌,
}
use ghost_merchant.Base.Text.{Text, text, text_eq}
use ghost_merchant.Domain.StateMachine.{Status}
use ghost_merchant.Domain.Ids.{is_uuid}
use ghost_merchant.Domain.PaymentRef.{normalize_reference}
use ghost_merchant.Domain.Webhook.{Callback, verify_webhook}
use ghost_merchant.Db.{Db, Order, Payment, Detail}
use ghost_merchant.Db.Tx.{Result, ok, err, Error, payment_error, amount_mismatch, reference_used}
use ghost_merchant.Db.Rows.{audit, find_receipt}
use ghost_merchant.Commands.Payments.{confirm_payment}

-- The fields of the body: an order id that is no string is `none`, and so are a reference that is
-- absent or `null` and a payer that is falsy; what stays is as `String` spells it. An amount that is
-- not there is `none`, and `null` is `some none`.
pub record Body : Type 0 where
  pub order_id : Option Text
  pub reference : Option Text
  pub amount : Option (Option Text)
  pub payer : Option Text

pub record Service : Type 0 where
  pub is_api : Bool
  pub secret : Text
  pub hmac : Text → Text → Text
  pub parse_json : Text → Option Body
  pub to_upper : Text → Text
  pub to_cents : Text → Option ℕ
  pub uuid : Text → ℕ
  -- how the database spells the id of a row
  pub spell : ℕ → Text

-- The answers: 404, 401, the two kinds of 400, a retry that was applied already, the new status, 404
-- or 409 for money that cannot be applied, and an error that is handed on.
pub data Reply : Type 0 where
  not_found unauthorized bad_json incomplete duplicate : Reply
  applied : Status → Reply
  unapplied : ℕ → Reply
  failed : Error → Reply

-- `err instanceof PaymentError`, with its `status`
unfoldable pub payment_status : Error → Option ℕ
payment_status (payment_error why status) = some status
payment_status (amount_mismatch given total) = some 409
payment_status (reference_used ref order_id) = some 409
payment_status _ = none

-- `String(amount)`
abbrev amount_text : Option Text → Text
amount_text none = text "null"
amount_text (some a) = a

abbrev log_unmatched : Text → Text → Option Text → Option Text → Db → Db
log_unmatched id ref amount payer db =
    audit (text "system:mobile-money") (text "payment.unmatched") (some (text "order:" ++ id))
      (Detail.unmatched ref (amount_text amount) payer) db

unfoldable pub after_confirm :
    Text → Text → Option Text → Option Text → Result Order × Db → Reply × Db
after_confirm id ref amount payer (ok o, db) = (applied o.status, db)
after_confirm id ref amount payer (err e, db) = elim (payment_status e) [
  | none ↦ (failed e, db)
  | some status ↦
      (unapplied (if status == 404 then 404 else 409), log_unmatched id ref amount payer db)
]

-- a payment that is on record for the order already
unfoldable pub is_seen : (ℕ → Text) → Text → Option Payment → Bool
is_seen spell id none = false
is_seen spell id (some p) = text_eq (spell p.order_id) id

unfoldable pub apply_payment :
    Service → ℕ → Text → Text → Option Text → Option Text → Db → Reply × Db
apply_payment w now id ref amount payer db =
    if is_seen w.spell id (find_receipt ref db.payments)
    then (duplicate, db)
    else after_confirm id ref amount payer (
        confirm_payment w.to_upper w.to_cents now (w.uuid id) (some ref) amount
          (text "system:mobile-money") db)

-- the reference once it is in normal form; the empty one is none
unfoldable pub with_reference :
    Service → ℕ → Text → Option Text → Option Text → Option Text → Db → Reply × Db
with_reference w now id none amount payer db = (incomplete, db)
with_reference w now id (some []) amount payer db = (incomplete, db)
with_reference w now id (some (c ∷ s)) amount payer db =
    apply_payment w now id (c ∷ s) amount payer db

unfoldable pub with_amount :
    Service → ℕ → Text → Text → Option (Option Text) → Option Text → Db → Reply × Db
with_amount w now id reference none payer db = (incomplete, db)
with_amount w now id reference (some amount) payer db =
    with_reference w now id (normalize_reference w.to_upper reference) amount payer db

unfoldable pub with_order : Service → ℕ → Body → Option Text → Db → Reply × Db
with_order w now b none db = (incomplete, db)
with_order w now b (some id) db =
    if is_uuid id
    then with_amount w now id (or_else b.reference []) b.amount b.payer db
    else (incomplete, db)

unfoldable pub with_body : Service → ℕ → Option Body → Db → Reply × Db
with_body w now none db = (bad_json, db)
with_body w now (some b) db = with_order w now b b.order_id db

unfoldable pub verified : Service → ℕ → Callback → Option Text → Db → Reply × Db
verified w now c (some why) db = (unauthorized, db)
verified w now c none db = with_body w now (w.parse_json c.raw_body) db

-- `POST /payments/webhook`
unfoldable pub receive : Service → ℕ → Callback → Db → Reply × Db
receive w now c db =
    if w.is_api then verified w now c (verify_webhook w.hmac w.secret c now) db else (not_found, db)
