-- ===== src/Commands/Orders/Create.antt =====
-- `createOrder` of backend/src/commands/orders.js.
pub mod Retry
use ghost_merchant.Base.{
  ℕ, Bool, true, false, Option, none, some, [], ◌∷◌, ◌++◌, ◌==◌, if◌then◌else◌, or_else,
}
use ghost_merchant.Base.Int.{ℤ, pos, negsuc}
use ghost_merchant.Base.Text.{Text, text, trim}
use ghost_merchant.Domain.StateMachine.{pending_payment}
use ghost_merchant.Domain.Ids.{is_uuid}
use ghost_merchant.Domain.Phone.{parse_phone, valid, phone_reason}
use ghost_merchant.Domain.Evidence.{new_handoff_code}
use ghost_merchant.Db.{Db, Order, Event}
use ghost_merchant.Db.Tx.{
  Tx, Result, ok, err, plain, check_violation, ◌>>=◌, ◌>>◌, pure, modify, with_critical_transaction,
}
use ghost_merchant.Db.Rows.{order_of, add_order_event, enqueue}

-- The argument of `createOrder`. A `userId` that is no integer and a missing string are `none`;
-- an amount below zero can be asked for, and the database refuses it.
pub record NewOrder : Type 0 where
  pub id : Option Text
  pub user_id : Option ℕ
  pub contact_phone : Option Text
  pub items : Option Text
  pub total_amount : ℤ
  pub lat : Option ℤ
  pub lng : Option ℤ
  pub landmark : Option Text

-- What a request is once its checks have passed.
pub record Checked : Type 0 where
  pub user_id : ℕ
  pub phone : Text
  pub landmark : Text
  pub id : Option Text

check_phone : ℕ → Text → Option Text → Text → Result Checked
check_phone user landmark id raw = elim (parse_phone raw) [
  | valid p ↦ ok (record { user_id = user; phone = p.e164; landmark = landmark; id = id })
  | refused ↦ err (plain (text "Invalid phone number: " ++ phone_reason refused))
]

check_id : ℕ → Text → Option Text → Text → Result Checked
unfolding check_phone
check_id user landmark none raw = check_phone user landmark none raw
check_id user landmark (some s) raw =
    if is_uuid s
    then check_phone user landmark (some s) raw
    else err (plain (text "id must be a UUID"))

check_landmark : ℕ → Text → Option Text → Option Text → Result Checked
unfolding check_id
check_landmark user raw none id = err (plain (text "landmark is mandatory"))
check_landmark user raw (some l) id = elim (trim l) [
  | [] ↦ err (plain (text "landmark is mandatory"))
  | c ∷ s ↦ check_id user l id raw
]

check_contact : ℕ → Option Text → Option Text → Option Text → Result Checked
unfolding check_landmark
check_contact user (some (c ∷ raw)) landmark id = check_landmark user (c ∷ raw) landmark id
check_contact user _ landmark id = err (plain (text "phone required"))

-- the guards before the transaction, in their order
unfoldable pub check_request : NewOrder → Result Checked
unfolding check_contact
check_request r = elim r.user_id [
  | none ↦ err (plain (text "userId required"))
  | some user ↦ check_contact user r.contact_phone r.landmark r.id
]

unfoldable pub insert_order : ℕ → ℕ → Checked → NewOrder → Tx Order
insert_order now id c r db = elim r.total_amount [
  | negsuc n ↦ err check_violation
  | pos cents ↦
      let o : Order = record {
        id = id;
        user_phone = c.phone;
        user_id = c.user_id;
        status = pending_payment;
        total_amount = cents;
        items = or_else r.items (text "[]");
        lat = r.lat;
        lng = r.lng;
        landmark_text = c.landmark;
        driver_id = none;
        created_at = now;
        updated_at = now;
        payment_claimed_at = none;
        payment_claim_ref = none;
        payment_claim_wallet = none;
      } in
      ok (o, record db { orders = db.orders ++ o ∷ [] })
]

unfoldable pub add_handoff : ℕ → Text → Db → Db
add_handoff id code db = record db {
  handoffs =
      db.handoffs ++ record { order_id = id; code = code; attempts = 0; verified_at = none } ∷ [];
}

-- The new order with its event, its handoff code and its outbox row; `drawn` is the random number
-- behind the code.
unfoldable pub create_new : ℕ → ℕ → ℕ → Checked → NewOrder → Tx (Order × Bool)
unfolding insert_order add_handoff
create_new now drawn id c r = do
  created ← insert_order now id c r
  modify (add_order_event id none pending_payment (text "system") (some (text "order created")))
  modify (add_handoff id (new_handoff_code drawn))
  enqueue now (Event.order_created id created)
  pure (created, true)

-- A retry gets the original, if it is its own.
unfoldable pub replay_or_create : ℕ → ℕ → ℕ → Checked → NewOrder → Tx (Order × Bool)
unfolding create_new
replay_or_create now drawn id c r db = elim (order_of id db) [
  | some existing ↦
      if existing.user_id == c.user_id
      then ok ((existing, false), db)
      else err (plain (text "id already in use"))
  | none ↦ create_new now drawn id c r db
]

-- `id || newOrderId()`; `fresh` is the UUID that the runtime mints
pub order_id_of : (Text → ℕ) → ℕ → Option Text → ℕ
order_id_of uuid fresh none = fresh
order_id_of uuid fresh (some s) = uuid s

-- the transaction, where the checks have passed
unfoldable pub create_checked :
    (Text → ℕ) → ℕ → ℕ → ℕ → NewOrder → Result Checked → Db → Result (Order × Bool) × Db
unfolding order_id_of replay_or_create
create_checked uuid now fresh drawn r (err e) db = (err e, db)
create_checked uuid now fresh drawn r (ok c) db =
    with_critical_transaction (replay_or_create now drawn (order_id_of uuid fresh c.id) c r) db

-- `createOrder`
unfoldable pub create_order : (Text → ℕ) → ℕ → ℕ → ℕ → NewOrder → Db → Result (Order × Bool) × Db
unfolding check_request create_checked
create_order uuid now fresh drawn r db = create_checked uuid now fresh drawn r (check_request r) db
