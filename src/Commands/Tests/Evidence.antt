-- ===== src/Commands/Tests/Evidence.antt =====
-- A pickup and a delivery, by code, with no try left and with a wrong code.
use ghost_merchant.Commands.Tests.Sample.{order, shop, handoff, answer, left}
use ghost_merchant.Base.{ℕ, ◌≡◌, refl, true, none, some, [], ◌∷◌, arith}
use ghost_merchant.Base.Text.{Text, text, text_eq}
use ghost_merchant.Domain.StateMachine.{dispatched, in_transit, can_transition, auto_responses}
use ghost_merchant.Domain.Evidence.{is_handoff_code, handoff_matches, parse_fix, build_proof}
use ghost_merchant.Db.{Db, Order, pickup, photo, pickup_proof}
use ghost_merchant.Db.Tx.{Result, ok, err, proof_error, with_critical_transaction}
use ghost_merchant.Db.Rows.{order_of, find_handoff, has_photo}
use ghost_merchant.Commands.Orders.{
  transition_order, assert_transition, insert_message, auto_respond, refund_if_failed,
}
use ghost_merchant.Commands.Proofs.{
  Distance, Evidence, lock_order_at, proof_row, add_proof, prove, pickup_tx, confirm_pickup,
  try_code, use_evidence, delivery_tx, report, evidence_of, deliver_with, confirm_delivery,
}
use ghost_merchant.Commands.Proofs.Delivered.{
  Proves, Backed, confirm_pickup-Proves, confirm_delivery-Backed,
}
use ghost_merchant.Commands.Proofs.Tries.{Trying, counted, confirm_delivery-counted}

abbrev nowhere : Distance
nowhere fix pin = 0

abbrev loading : Db
loading = record (shop dispatched [] [] 0) {
  photos =
      record {
        id = 1;
        order_id = 7;
        kind = pickup_proof;
        object_key = [];
        content_type = none;
        uploaded_by = [];
        created_at = 1;
      }
      ∷ [];
}

abbrev picked_up : Result Order × Db
picked_up = confirm_pickup nowhere 9 7 [] none loading

confirm_pickup-Proves_example :
    (before : Order) × (order_of 7 loading ≡ some before)
    × (before.status ≡ dispatched)
    × (has_photo 7 pickup_proof loading.photos ≡ true)
    × Proves 9 7 [] pickup photo in_transit before (answer picked_up) loading (left picked_up)
unfolding confirm_pickup pickup_tx prove add_proof proof_row lock_order_at build_proof parse_fix
    transition_order assert_transition insert_message auto_respond refund_if_failed can_transition
    auto_responses with_critical_transaction
confirm_pickup-Proves_example =
    confirm_pickup-Proves nowhere 9 7 [] none loading (left picked_up) (answer picked_up) refl

abbrev out : ℕ → Db
out tries = shop in_transit [] [] tries

-- "0042", the customer's code, and "1111"
abbrev right : Text
right = 48 ∷ 48 ∷ 52 ∷ 50 ∷ []

abbrev wrong : Text
wrong = 49 ∷ 49 ∷ 49 ∷ 49 ∷ []

abbrev handed_over : Result Order × Db
handed_over = confirm_delivery nowhere 9 7 [] (some right) none none (out 2)

confirm_delivery-Backed_example :
    (ev : Evidence) × (before : Order) × (evidence_of (some right) none ≡ ok ev)
    × (order_of 7 (out 2) ≡ some before)
    × (before.status ≡ in_transit)
    × Backed 9 7 [] before (answer handed_over) (out 2) (left handed_over) ev
unfolding confirm_delivery deliver_with evidence_of report delivery_tx use_evidence try_code
    is_handoff_code handoff_matches text text_eq prove add_proof proof_row lock_order_at build_proof
    parse_fix transition_order assert_transition insert_message auto_respond refund_if_failed
    can_transition auto_responses with_critical_transaction
confirm_delivery-Backed_example =
    confirm_delivery-Backed nowhere 9 7 [] (some right) none none (out 2) (left handed_over)
      (answer handed_over) refl

trying :
    (c tries : ℕ) (s : Text)
    → is_handoff_code (c ∷ s) ≡ true
    → Trying 7 (order in_transit none) (handoff tries) c s (out tries)
trying c tries s shaped = record { found = refl; out = refl; there = refl; shaped = shaped }

confirm_delivery-counted_example :
    (why : Text) × (confirm_delivery nowhere 9 7 [] (some wrong) none none (out 2)
      ≡ (err (proof_error why 422 (some 2)), counted 7 (out 2)))
    × (find_handoff 7 (counted 7 (out 2)).handoffs ≡ some (handoff 3))
unfolding is_handoff_code handoff_matches text text_eq
confirm_delivery-counted_example =
    confirm_delivery-counted nowhere 9 7 [] 49 (49 ∷ 49 ∷ 49 ∷ []) none none (order in_transit none)
      (handoff 2) (out 2) (trying 49 2 (49 ∷ 49 ∷ 49 ∷ []) refl) (omega arith) refl
