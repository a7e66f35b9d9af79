-- ===== src/Commands/Tests/Sample.antt =====
-- The tables of the examples: an order of seven and a half dollars, and a driver who may take it.
use ghost_merchant.Base.{ℕ, true, Option, none, some, List, [], ◌∷◌}
use ghost_merchant.Base.Text.{text}
use ghost_merchant.Domain.StateMachine.{Status, pending_payment}
use ghost_merchant.Db.Tx.{Tx, Result, ok, err}
use ghost_merchant.Db.{Db, Order, OrderEvent, Handoff, Payment, Refund, Driver, owed}

abbrev pub order : Status → Option ℕ → Order
order status driver = record {
  id = 7;
  user_phone = [];
  user_id = 4;
  status = status;
  total_amount = 750;
  items = [];
  lat = none;
  lng = none;
  landmark_text = [];
  driver_id = driver;
  created_at = 1;
  updated_at = 1;
  payment_claimed_at = none;
  payment_claim_ref = none;
  payment_claim_wallet = none;
}

abbrev pub created : OrderEvent
created = record {
  order_id = 7;
  from_status = none;
  to_status = pending_payment;
  actor = [];
  note = none;
}

abbrev pub handoff : ℕ → Handoff
handoff attempts = record {
  order_id = 7;
  code = text "0042";
  attempts = attempts;
  verified_at = none;
}

abbrev pub receipt : Payment
receipt = record {
  order_id = 7;
  telecom_receipt_id = text "AB12";
  sender_msisdn = [];
  amount = 750;
  matched = true;
  provider = [];
  sender_name = [];
}

abbrev pub asha : Driver
asha = record { id = 1; name = []; active = true; pin_set_at = some 1; last_assigned_at = none }

abbrev pub debt : Refund
debt = record {
  id = 3;
  order_id = 7;
  amount = 750;
  reason = [];
  status = owed;
  settled_at = none;
  settled_by = none;
  settlement_reference = none;
  settlement_note = none;
  created_by = [];
}

-- A shop where the order has a status, with the payments, the refunds and the tries of its code.
abbrev pub shop : Status → List Payment → List Refund → ℕ → Db
shop status payments refunds attempts = record {
  orders = order status none ∷ [];
  order_events = created ∷ [];
  handoffs = handoff attempts ∷ [];
  messages = [];
  payments = payments;
  refunds = refunds;
  photos = [];
  proofs = [];
  drivers = asha ∷ [];
  audit_log = [];
  outbox = [];
  next_id = 10;
}

-- The tables after a transaction's body, and after a command.
abbrev pub after : {A : Type 0} → Tx A → Db → Db
after m db = elim (m db) [ ok (a, db') ↦ db' | err e ↦ db ]

-- The order that a command answers with, and the tables that it leaves.
abbrev pub answer : Result Order × Db → Order
answer (ok o, db) = o
answer (err e, db) = order pending_payment none

abbrev pub left : {A : Type 0} → A × Db → Db
left (a, db) = db
