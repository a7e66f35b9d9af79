-- ===== src/Routes/Tests.antt =====
-- The provider's callback, twice.
use ghost_merchant.Base.{◌≡◌, refl, true, none, some, [], ◌∷◌, replicate, arith}
use ghost_merchant.Base.Int.{pos}
use ghost_merchant.Base.Text.{Text, text, trim, text_eq}
use ghost_merchant.Domain.StateMachine.{Status, pending_payment, can_transition, auto_responses}
use ghost_merchant.Domain.Ids.{is_uuid}
use ghost_merchant.Domain.PaymentRef.{normalize_reference}
use ghost_merchant.Domain.Rotation.{pick_driver, sort_drivers, sort_insert, first}
use ghost_merchant.Domain.Webhook.{Callback, sign_payload, verify_webhook}
use ghost_merchant.Db.{Db}
use ghost_merchant.Db.Tx.{with_critical_transaction}
use ghost_merchant.Commands.Orders.{
  transition_order, assert_transition, insert_message, auto_respond, refund_if_failed,
}
use ghost_merchant.Commands.Dispatch.{
  dispatch_order, give_to, assign_driver, candidates_of, candidate_of,
}
use ghost_merchant.Commands.Payments.{
  reference_or_throw, amount_matches, add_payment, check_confirmable, payment_row, record_payment,
  confirm_body_tx, confirm_checked, confirm_payment,
}
use ghost_merchant.Commands.Tests.Sample.{shop}
use ghost_merchant.Routes.PaymentsWebhook.{
  Body, Service, Reply, applied, duplicate, payment_status, after_confirm, is_seen, apply_payment,
  with_reference, with_amount, with_order, with_body, verified, receive,
}
use ghost_merchant.Routes.PaymentsWebhook.Replay.{receive-replay}

abbrev order_text : Text
order_text = text "00000000-0000-4000-8000-000000000007"

abbrev body : Body
body = record {
  order_id = some order_text;
  reference = some (65 ∷ 66 ∷ 49 ∷ 50 ∷ []);
  amount = some none;
  payer = none;
}

-- A service that signs with zeros and knows one order, the seventh.
abbrev service : Service
service = record {
  is_api = true;
  secret = 49 ∷ [];
  hmac = λ key payload. replicate 64 48;
  parse_json = λ raw. some body;
  to_upper = λ s. s;
  to_cents = λ s. none;
  uuid = λ s. 7;
  spell = λ n. order_text;
}

abbrev signed : Callback
signed = record { timestamp = some (pos 100); signature = some (replicate 64 48); raw_body = [] }

abbrev received : Reply × Db
received = receive service 200000 signed (shop pending_payment [] [] 0)

abbrev reached : Reply → Status
reached r = elim r [ applied s ↦ s | _ ↦ pending_payment ]

receive-replay_example : receive service 300000 signed received.1 ≡ (duplicate, received.1)
unfolding receive verified with_body with_order with_amount with_reference apply_payment is_seen
    after_confirm payment_status is_uuid verify_webhook sign_payload confirm_payment confirm_checked
    confirm_body_tx record_payment payment_row check_confirmable add_payment amount_matches
    reference_or_throw normalize_reference trim text_eq text dispatch_order give_to assign_driver
    candidates_of candidate_of pick_driver sort_drivers sort_insert first transition_order
    assert_transition insert_message auto_respond refund_if_failed can_transition auto_responses
    with_critical_transaction
receive-replay_example =
    receive-replay service (λ s h. refl) 200000 300000 signed signed (reached received.0)
      (shop pending_payment [] [] 0) received.1 (λ b i k e. ground arith) refl refl refl
