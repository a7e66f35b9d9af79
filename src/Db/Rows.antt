-- ===== src/Db/Rows.antt =====
-- The statements on single tables that the commands are made of.
use ghost_merchant.Base.{
  ℕ, suc, ◌+◌, Bool, true, false, Option, none, some, List, [], ◌∷◌, ◌++◌, ◌&&◌, ◌==◌,
  if◌then◌else◌,
}
use ghost_merchant.Base.Table.{find_by, update_by}
use ghost_merchant.Base.Text.{Text, text_eq}
use ghost_merchant.Domain.StateMachine.{Status}
use ghost_merchant.Db.{
  Db, Order, Handoff, Message, Payment, Refund, RefundStatus, owed, settled, waived, Photo,
  PhotoKind, order_ref, pickup_proof, delivery_proof, Proof, Step, pickup, delivery, Detail, Event,
}
use ghost_merchant.Db.Tx.{Tx, ok, err, not_found}

-- `findUnique({ where: { id } })`, and `SELECT … FOR UPDATE` in a transaction
abbrev pub find_order : ℕ → List Order → Option Order
find_order = find_by λ o. o.id

abbrev pub order_of : ℕ → Db → Option Order
order_of id db = find_order id db.orders

-- `tx.order.update({ where: { id }, data })`, which returns the row
abbrev pub update_order : ℕ → (Order → Order) → Tx Order
update_order id f db = elim (order_of id db) [
  | none ↦ err not_found
  | some o ↦ ok (f o, record db { orders = update_by (λ r. r.id) id f db.orders })
]

abbrev pub add_order_event : ℕ → Option Status → Status → Text → Option Text → Db → Db
add_order_event order_id from to actor note db = record db {
  order_events =
      db.order_events
      ++ record {
        order_id = order_id;
        from_status = from;
        to_status = to;
        actor = actor;
        note = note;
      }
        ∷ [];
}

-- `enqueue` of backend/src/events/outbox.js: the row commits with the change that it describes.
abbrev pub enqueue : ℕ → Event → Tx ℕ
enqueue now event db = ok (
  db.next_id,
  record db {
    outbox =
        db.outbox
        ++ record {
          id = db.next_id;
          event = event;
          created_at = now;
          published_at = none;
          attempts = 0;
          last_error = none;
          failed = false;
        }
          ∷ [];
    next_id = suc db.next_id;
  },
)

-- `audit` of backend/src/commands/audit.js
abbrev pub audit : Text → Text → Option Text → Detail → Db → Db
audit actor action subject detail db = record db {
  audit_log =
      db.audit_log
      ++ record { actor = actor; action = action; subject = subject; detail = detail } ∷ [];
}

abbrev pub same_client : ℕ → Option ℕ → Bool
same_client c none = false
same_client c (some d) = c == d

-- The row that holds a client's id, under the partial unique index.
abbrev pub find_client : ℕ → List Message → Option Message
find_client c [] = none
find_client c (m ∷ ms) = if same_client c m.client_id then some m else find_client c ms

-- The conflict of an insertion: none without a client's id.
abbrev pub landed : Option ℕ → List Message → Option Message
landed none ms = none
landed (some c) ms = find_client c ms

abbrev pub find_handoff : ℕ → List Handoff → Option Handoff
find_handoff = find_by λ h. h.order_id

abbrev pub update_handoff : ℕ → (Handoff → Handoff) → Db → Db
update_handoff id f db = record db { handoffs = update_by (λ h. h.order_id) id f db.handoffs }

abbrev pub find_receipt : Text → List Payment → Option Payment
find_receipt r [] = none
find_receipt r (p ∷ ps) = if text_eq r p.telecom_receipt_id then some p else find_receipt r ps

abbrev pub is_owed : RefundStatus → Bool
is_owed owed = true
is_owed settled = false
is_owed waived = false

-- `findFirst({ where: { order_id, status: 'owed' } })`
abbrev pub find_open : ℕ → List Refund → Option Refund
find_open id [] = none
find_open id (r ∷ rs) = if r.order_id == id && is_owed r.status then some r else find_open id rs

-- `aggregate({ where: { order_id, matched: true }, _sum: { amount } })`, 0 for no row
abbrev pub paid_total : ℕ → List Payment → ℕ
paid_total id [] = 0
paid_total id (p ∷ ps) =
    let rest = paid_total id ps in if p.order_id == id && p.matched then p.amount + rest else rest

abbrev pub same_kind : PhotoKind → PhotoKind → Bool
same_kind order_ref order_ref = true
same_kind pickup_proof pickup_proof = true
same_kind delivery_proof delivery_proof = true
same_kind _ _ = false

-- `hasPhoto` of backend/src/commands/proofs.js
abbrev pub has_photo : ℕ → PhotoKind → List Photo → Bool
has_photo id kind [] = false
has_photo id kind (p ∷ ps) =
    if p.order_id == id && same_kind p.kind kind then true else has_photo id kind ps

abbrev pub same_step : Step → Step → Bool
same_step pickup pickup = true
same_step delivery delivery = true
same_step _ _ = false

abbrev pub find_proof : ℕ → Step → List Proof → Option Proof
find_proof id step [] = none
find_proof id step (p ∷ ps) =
    if p.order_id == id && same_step p.step step then some p else find_proof id step ps

abbrev pub update_proof : ℕ → Step → (Proof → Proof) → List Proof → List Proof
update_proof id step f [] = []
update_proof id step f (p ∷ ps) =
    if p.order_id == id && same_step p.step step
    then f p ∷ update_proof id step f ps
    else p ∷ update_proof id step f ps
