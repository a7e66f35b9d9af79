-- ===== src/Commands/Orders.antt =====
-- Orders: creation, the one way to change a status, messages (backend/src/commands/orders.js),
-- and the refund that a failed order opens (`openRefundIfOwed` of backend/src/commands/refunds.js).
-- A command reads the clock once, as `now`. Events and audit rows go to the tables; waking the
-- relay after the commit is left out, since it changes no table.
pub mod Create
pub mod Transition
pub mod History
pub mod Debt
use ghost_merchant.Base.{
  ℕ, suc, Bool, true, false, Option, none, some, List, [], ◌∷◌, ◌++◌, ◌==◌, if◌then◌else◌, length,
  or_else, not,
}
use ghost_merchant.Base.Int.{ℤ, pos, negsuc}
use ghost_merchant.Base.Text.{Text, text, trim}
use ghost_merchant.Domain.StateMachine.{
  Status, pending_payment, paid_unassigned, dispatched, in_transit, delivered, failed_refund,
  can_transition, auto_responses,
}
use ghost_merchant.Domain.Ids.{is_uuid}
use ghost_merchant.Domain.Phone.{parse_phone, normalize_msisdn, phone_reason}
use ghost_merchant.Domain.Evidence.{new_handoff_code}
use ghost_merchant.Db.{Db, Order, Message, Refund, owed, Event}
use ghost_merchant.Db.Tx.{
  Tx, Result, ok, err, Error, plain, illegal_transition, order_not_found, check_violation,
  foreign_key_violation, ◌>>=◌, ◌>>◌, pure, throw, gets, or_throw, of_result, modify,
  with_transaction, with_critical_transaction,
}
use ghost_merchant.Db.Rows.{
  order_of, find_order, update_order, add_order_event, enqueue, landed, find_open, paid_total,
  is_owed,
}

-- `assertTransition`. The targets are the constants, so that the test of `STATUS[to]` passes.
unfoldable pub assert_transition : Status → Status → Result (Unit {0})
assert_transition from to =
    if can_transition from to then ok tt else err (illegal_transition from to)

add_message : Message → Tx Message
add_message m db = ok (m, record db { messages = db.messages ++ m ∷ []; next_id = suc db.next_id })

-- `INSERT … ON CONFLICT (client_id) DO NOTHING` and the event, or the row that is there already.
unfoldable pub insert_message : ℕ → ℕ → Text → Text → Option ℕ → Tx (Message × Bool)
unfolding add_message
insert_message now order_id sender body client_id db = elim (landed client_id db.messages) [
  | some m ↦ ok ((m, false), db)
  | none ↦ elim (order_of order_id db) [
    | none ↦ err foreign_key_violation
    | some o ↦
        (do
          m ← add_message (record {
            id = db.next_id;
            order_id = order_id;
            sender = sender;
            body = body;
            client_id = client_id;
          })
          enqueue now (Event.message_posted order_id m)
          pure (m, true))
          db
  ]
]

-- `postMessage`. `uuid` is the database's cast to `uuid`.
unfoldable pub post_message :
    (Text → ℕ) → ℕ → ℕ → Text → Text → Option Text → Db → Result (Message × Bool) × Db
unfolding insert_message with_transaction
post_message uuid now order_id sender body none db =
    with_transaction (insert_message now order_id sender body none) db
post_message uuid now order_id sender body (some client) db =
    if is_uuid client
    then with_transaction (insert_message now order_id sender body (some (uuid client))) db
    else (err (plain (text "clientId must be a UUID")), db)

-- `a || b` on strings
abbrev pub or_text : Option Text → Text → Text
or_text none d = d
or_text (some []) d = d
or_text (some (c ∷ s)) d = c ∷ s

-- the row of `tx.refund.create`
abbrev pub new_refund : ℕ → ℕ → Option Text → Text → Db → Refund
new_refund order_id amount reason created_by db = record {
  id = db.next_id;
  order_id = order_id;
  amount = amount;
  reason = or_text reason (text "order failed after payment");
  status = owed;
  settled_at = none;
  settled_by = none;
  settlement_reference = none;
  settlement_note = none;
  created_by = or_text (some created_by) (text "system");
}

unfoldable pub create_refund : ℕ → ℕ → Option Text → Text → Tx (Option Refund)
create_refund order_id amount reason created_by db =
    let r = new_refund order_id amount reason created_by db in
    ok (some r, record db { refunds = db.refunds ++ r ∷ []; next_id = suc db.next_id })

-- `openRefundIfOwed`
unfoldable pub open_refund_if_owed : ℕ → Option Text → Text → Tx (Option Refund)
unfolding create_refund
open_refund_if_owed order_id reason created_by db =
    if paid_total order_id db.payments == 0
    then ok (none, db)
    else elim (find_open order_id db.refunds) [
      | some open_one ↦ ok (some open_one, db)
      | none ↦ create_refund order_id (paid_total order_id db.payments) reason created_by db
    ]

-- the message of `AUTO_RESPONSES`, in the same commit
unfoldable pub auto_respond : ℕ → ℕ → Status → Tx (Unit {0})
unfolding insert_message
auto_respond now order_id to = elim (auto_responses to) [
  | none ↦ pure tt
  | some body ↦ insert_message now order_id (text "system") body none >> pure tt
]

-- the branch of `transitionOrder` for a failed order
unfoldable pub refund_if_failed : ℕ → Status → Option Text → Text → Tx (Unit {0})
unfolding open_refund_if_owed
refund_if_failed order_id failed_refund note actor =
    open_refund_if_owed order_id note actor >> pure tt
refund_if_failed order_id _ _ _ = pure tt

-- `transitionOrder`, inside a transaction
unfoldable pub transition_order : ℕ → ℕ → Status → Text → Option Text → Tx Order
transition_order now order_id to actor note = do
  found ← gets (order_of order_id)
  order ← or_throw found (order_not_found order_id)
  of_result (assert_transition order.status to)
  updated ← update_order order_id (λ r. record r { status = to; updated_at = now })
  modify (add_order_event order_id (some order.status) to actor note)
  enqueue now (Event.order_state_changed order_id order.status to actor)
  auto_respond now order_id to
  refund_if_failed order_id to note actor
  pure updated

-- `transitionOrder` without a client: its own critical transaction
unfoldable pub transition_order_alone : ℕ → ℕ → Status → Text → Option Text → Db → Result Order × Db
unfolding transition_order with_critical_transaction
transition_order_alone now order_id to actor note =
    with_critical_transaction (transition_order now order_id to actor note)
