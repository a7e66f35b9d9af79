-- ===== src/Db.antt =====
-- The tables that the commands read and write (backend/prisma/schema.prisma), as records of
-- lists. Money is in cents, instants are milliseconds, a UUID is the number that it spells,
-- and a JSON value that the code only stores is its text.
pub mod Tx
pub mod Rows
use ghost_merchant.Base.{ℕ, Bool, Option, List}
use ghost_merchant.Base.Int.{ℤ}
use ghost_merchant.Base.Text.{Text}
use ghost_merchant.Domain.StateMachine.{Status}

-- model Order
pub record Order : Type 0 where
  pub id : ℕ
  pub user_phone : Text
  pub user_id : ℕ
  pub status : Status
  pub total_amount : ℕ
  pub items : Text
  pub lat : Option ℤ
  pub lng : Option ℤ
  pub landmark_text : Text
  pub driver_id : Option ℕ
  pub created_at : ℕ
  pub updated_at : ℕ
  pub payment_claimed_at : Option ℕ
  pub payment_claim_ref : Option Text
  pub payment_claim_wallet : Option Text

-- model OrderEvent
pub record OrderEvent : Type 0 where
  pub order_id : ℕ
  pub from_status : Option Status
  pub to_status : Status
  pub actor : Text
  pub note : Option Text

-- model DeliveryHandoff
pub record Handoff : Type 0 where
  pub order_id : ℕ
  pub code : Text
  pub attempts : ℕ
  pub verified_at : Option ℕ

-- model Message
pub record Message : Type 0 where
  pub id : ℕ
  pub order_id : ℕ
  pub sender : Text
  pub body : Text
  pub client_id : Option ℕ

-- model Transaction; every row that the code writes names its order
pub record Payment : Type 0 where
  pub order_id : ℕ
  pub telecom_receipt_id : Text
  pub sender_msisdn : Text
  pub amount : ℕ
  pub matched : Bool
  pub provider : Text
  pub sender_name : Text

-- refunds_status_check
pub data RefundStatus : Type 0 where
  owed settled waived : RefundStatus

-- model Refund
pub record Refund : Type 0 where
  pub id : ℕ
  pub order_id : ℕ
  pub amount : ℕ
  pub reason : Text
  pub status : RefundStatus
  pub settled_at : Option ℕ
  pub settled_by : Option Text
  pub settlement_reference : Option Text
  pub settlement_note : Option Text
  pub created_by : Text

-- order_photos_kind_check
pub data PhotoKind : Type 0 where
  order_ref pickup_proof delivery_proof : PhotoKind

-- model OrderPhoto
pub record Photo : Type 0 where
  pub id : ℕ
  pub order_id : ℕ
  pub kind : PhotoKind
  pub object_key : Text
  pub content_type : Option Text
  pub uploaded_by : Text
  pub created_at : ℕ

-- order_proofs_step_check
pub data Step : Type 0 where
  pickup delivery : Step

-- order_proofs_method_check
pub data Method : Type 0 where
  photo code photo_no_code : Method

-- The flags that `buildProof` and `disputeDelivery` write.
pub data Flag : Type 0 where
  no_code no_gps far_from_pin customer_disputed : Flag

-- model OrderProof
pub record Proof : Type 0 where
  pub order_id : ℕ
  pub step : Step
  pub method : Method
  pub note : Option Text
  pub lat : Option ℤ
  pub lng : Option ℤ
  pub accuracy_m : Option ℕ
  pub distance_m : Option ℕ
  pub flags : List Flag
  pub actor : Text
  pub created_at : ℕ
  pub reviewed_by : Option Text
  pub reviewed_at : Option ℕ

-- model Driver, without what only sign-in reads
pub record Driver : Type 0 where
  pub id : ℕ
  pub name : Text
  pub active : Bool
  pub pin_set_at : Option ℕ
  pub last_assigned_at : Option ℕ

-- The JSON of an audit row, for the actions that are modelled.
pub data Detail : Type 0 where
  -- reference and amount
  confirmation : Text → ℕ → Detail
  -- driver, name and the orders they had before
  assignment : ℕ → Text → ℕ → Detail
  -- reference, amount and payer; the reason is left out
  unmatched : Text → Text → Option Text → Detail

-- model AuditLog
pub record AuditRow : Type 0 where
  pub actor : Text
  pub action : Text
  pub subject : Option Text
  pub detail : Detail

-- `EVENTS` of backend/src/events/bus.js, each with its payload
pub data Event : Type 0 where
  order_created : ℕ → Order → Event
  order_state_changed : ℕ → Status → Status → Text → Event
  payment_received : ℕ → ℕ → Text → Event
  message_posted : ℕ → Message → Event
  payment_claimed : ℕ → Option Text → Option Text → Option Text → Option ℕ → Event

-- model Outbox
pub record OutboxRow : Type 0 where
  pub id : ℕ
  pub event : Event
  pub created_at : ℕ
  pub published_at : Option ℕ
  pub attempts : ℕ
  pub last_error : Option Text
  pub failed : Bool

-- Rows stand in the order of their insertion; `next_id` is the sequence behind the generated keys.
pub record Db : Type 0 where
  pub orders : List Order
  pub order_events : List OrderEvent
  pub handoffs : List Handoff
  pub messages : List Message
  pub payments : List Payment
  pub refunds : List Refund
  pub photos : List Photo
  pub proofs : List Proof
  pub drivers : List Driver
  pub audit_log : List AuditRow
  pub outbox : List OutboxRow
  pub next_id : ℕ
