-- ===== src/Commands/Tests/System.antt =====
-- A day of the shop: an order is made, paid and dispatched, photographed, picked up and delivered.
use ghost_merchant.Domain.Evidence.{new_handoff_code}
use ghost_merchant.Base.Decimal.{pad_start, decimal}
use ghost_merchant.Commands.Orders.Create.{
  create_order, check_request, create_checked, replay_or_create, create_new, insert_order,
  add_handoff,
}
use ghost_merchant.Commands.Payments.{
  confirm_payment, confirm_checked, confirm_body_tx, record_payment, payment_row, check_confirmable,
  add_payment, amount_matches, reference_or_throw,
}
use ghost_merchant.Domain.PaymentRef.{normalize_reference}
use ghost_merchant.Base.Text.{trim, text_eq}
use ghost_merchant.Commands.Dispatch.{
  dispatch_order, give_to, assign_driver, candidates_of, candidate_of,
}
use ghost_merchant.Domain.Rotation.{pick_driver, sort_drivers, sort_insert, first}
use ghost_merchant.Commands.Orders.{
  transition_order, assert_transition, insert_message, auto_respond, refund_if_failed, post_message,
}
use ghost_merchant.Domain.StateMachine.{can_transition, auto_responses}
use ghost_merchant.Db.Tx.{with_critical_transaction, with_transaction}
use ghost_merchant.Commands.Photos.{
  save_photo, store_photo, finish_photo, after_post, remove_stale, upsert_photo, object_key,
  photo_note, kind_name, extension,
}
use ghost_merchant.Commands.Proofs.{
  confirm_pickup, pickup_tx, prove, add_proof, proof_row, lock_order_at, confirm_delivery,
  deliver_with, evidence_of, report, delivery_tx, use_evidence, try_code,
}
use ghost_merchant.Domain.Evidence.{build_proof, parse_fix, is_handoff_code, handoff_matches}
use ghost_merchant.Domain.Phone.{parse_phone}
use ghost_merchant.Commands.Tests.Sample.{asha}
use ghost_merchant.Commands.Orders.History.{status_of}
use ghost_merchant.Base.{ℕ, ◌≡◌, refl, true, none, some, List, [], ◌∷◌}
use ghost_merchant.Base.Int.{pos}
use ghost_merchant.Base.Text.{text}
use ghost_merchant.Domain.StateMachine.{delivered}
use ghost_merchant.Db.{Db, pickup_proof}
use ghost_merchant.Commands.Photos.{Upload}
use ghost_merchant.Commands.Orders.Create.{NewOrder}
use ghost_merchant.Commands.Orders.History.{IsAudited}
use ghost_merchant.Commands.Dispatch.Capacity.{IsLight}
use ghost_merchant.Commands.System.{
  Runtime, Call, create, confirm, photograph, pick_up, deliver, perform, run, new_db,
}
use ghost_merchant.Commands.System.Money.{IsPaidUp, IsUnique}
use ghost_merchant.Commands.System.Refunds.{IsRefunded}
use ghost_merchant.Commands.System.Refine.{book, Strides, run-Strides}
use ghost_merchant.Commands.System.Sound.{run-IsAudited, run-IsLight, run-IsPaidUp, run-IsRefunded}

abbrev runtime : Runtime
runtime = record {
  uuid = λ s. 8;
  spell = λ n. [];
  to_upper = λ s. s;
  to_cents = λ s. some 750;
  distance_meters = λ fix pin. 0;
  wallets = [];
}

abbrev request : NewOrder
request = record {
  id = none;
  user_id = some 4;
  contact_phone = some (text "+252612345678");
  items = none;
  total_amount = pos 750;
  lat = none;
  lng = none;
  landmark = some (109 ∷ []);
}

-- Who is at the shop photographs the goods before the pickup.
abbrev goods : Upload
goods = record {
  order_id = 8;
  kind = pickup_proof;
  size = 100;
  content_type = some (text "image/jpeg");
  uploaded_by = some (text "driver:1");
}

-- "0042" is the code of the order that is drawn from 42.
abbrev day : List (ℕ × Call)
day =
    (9, create 8 42 request)
    ∷ (10, confirm 8 (some (text "AB12CD")) none (text "operator"))
    ∷ (12, photograph none (λ k. true) goods)
    ∷ (13, pick_up 8 (text "driver:1") none)
    ∷ (14, deliver 8 (text "driver:1") (some (text "0042")) none none)
    ∷ []

abbrev evening : Db
evening = run runtime day (new_db (asha ∷ []))

-- The run gets as far as the customer's hands.
evening-delivered : status_of 8 evening ≡ some delivered
unfolding run perform new_db create_order check_request create_checked replay_or_create create_new
    insert_order add_handoff confirm_payment confirm_checked confirm_body_tx record_payment
    payment_row check_confirmable add_payment amount_matches reference_or_throw normalize_reference
    trim text_eq text dispatch_order give_to assign_driver candidates_of candidate_of pick_driver
    sort_drivers sort_insert first transition_order assert_transition insert_message auto_respond
    refund_if_failed can_transition auto_responses with_critical_transaction with_transaction
    save_photo store_photo finish_photo after_post remove_stale upsert_photo object_key photo_note
    kind_name extension post_message confirm_pickup pickup_tx prove add_proof proof_row
    lock_order_at build_proof parse_fix confirm_delivery deliver_with evidence_of report delivery_tx
    use_evidence try_code is_handoff_code handoff_matches new_handoff_code pad_start decimal
    parse_phone
evening-delivered = refl

run-Strides_example : Strides (book (new_db (asha ∷ []))) (book evening)
run-Strides_example = run-Strides runtime day (new_db (asha ∷ []))

run-IsAudited_example : IsAudited evening
run-IsAudited_example = run-IsAudited runtime day (asha ∷ [])

run-IsLight_example : IsLight evening
run-IsLight_example = run-IsLight runtime day (asha ∷ [])

run-IsPaidUp_example : IsPaidUp evening × IsUnique evening.payments
run-IsPaidUp_example = run-IsPaidUp runtime day (asha ∷ [])

run-IsRefunded_example : IsRefunded evening
run-IsRefunded_example = run-IsRefunded runtime day (asha ∷ [])
