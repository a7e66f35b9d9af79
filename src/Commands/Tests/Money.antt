-- ===== src/Commands/Tests/Money.antt =====
-- A payment of seven and a half dollars, its failure and its refund.
use ghost_merchant.Commands.Tests.Sample.{shop, receipt, debt, after, answer, left}
use ghost_merchant.Base.{ℕ, ◌+◌, ◌≡◌, refl, Option, none, some, [], ◌∷◌, arith, inl}
use ghost_merchant.Base.Text.{Text, trim, text_eq}
use ghost_merchant.Domain.StateMachine.{
  pending_payment, paid_unassigned, failed_refund, can_transition, auto_responses,
}
use ghost_merchant.Domain.PaymentRef.{normalize_reference}
use ghost_merchant.Domain.Rotation.{pick_driver, sort_drivers, sort_insert, first}
use ghost_merchant.Db.{Db, Order, Refund}
use ghost_merchant.Db.Tx.{Result, ok, Refused, with_critical_transaction}
use ghost_merchant.Db.Rows.{find_open, paid_total}
use ghost_merchant.Commands.Orders.{
  transition_order, assert_transition, insert_message, auto_respond, refund_if_failed,
  open_refund_if_owed, create_refund,
}
use ghost_merchant.Commands.Orders.Debt.{fail-owes}
use ghost_merchant.Commands.Dispatch.{
  dispatch_order, give_to, assign_driver, candidates_of, candidate_of,
}
use ghost_merchant.Commands.Payments.{
  reference_or_throw, amount_matches, add_payment, check_confirmable, payment_row, record_payment,
  confirm_body_tx, confirm_checked, confirm_payment,
}
use ghost_merchant.Commands.Payments.Confirmation.{
  Confirmed, confirm_payment-Confirmed, confirm_payment_once,
}
use ghost_merchant.Base.Table.{update_by}
use ghost_merchant.Commands.Refunds.{
  read_owed, waiver, settle_refund, settle_with, close_refund, update_refund,
}
use ghost_merchant.Commands.Refunds.Ledger.{
  Closing, settles, waives, close, outstanding, close_once,
}

abbrev unpaid : Db
unpaid = shop pending_payment [] [] 0

abbrev same : Text → Text
same s = s

abbrev cents : Text → Option ℕ
cents s = none

-- The reference is "AB12".
abbrev ref : Text
ref = 65 ∷ 66 ∷ 49 ∷ 50 ∷ []

abbrev confirmed : Result Order × Db
confirmed = confirm_payment same cents 9 7 (some ref) none [] unpaid

confirm_payment-Confirmed_example :
    (given : Text) × (before : Order) × (reference_or_throw same (some ref) ≡ ok given)
    × Confirmed cents 9 7 given none [] before (answer confirmed) unpaid (left confirmed)
unfolding confirm_payment confirm_checked confirm_body_tx record_payment payment_row
    check_confirmable add_payment amount_matches reference_or_throw normalize_reference trim text_eq
    dispatch_order give_to assign_driver candidates_of candidate_of pick_driver sort_drivers
    sort_insert first transition_order assert_transition insert_message auto_respond
    refund_if_failed can_transition auto_responses with_critical_transaction
confirm_payment-Confirmed_example =
    confirm_payment-Confirmed same cents 9 7 (some ref) none [] unpaid (left confirmed)
      (answer confirmed) refl

confirm_payment_once_example :
    Refused
      (confirm_payment same cents 11 7 (some (67 ∷ 67 ∷ 67 ∷ 67 ∷ [])) none [] (left confirmed))
      (left confirmed)
unfolding confirm_payment confirm_checked confirm_body_tx record_payment payment_row
    check_confirmable add_payment amount_matches reference_or_throw normalize_reference trim text_eq
    dispatch_order give_to assign_driver candidates_of candidate_of pick_driver sort_drivers
    sort_insert first transition_order assert_transition insert_message auto_respond
    refund_if_failed can_transition auto_responses with_critical_transaction
confirm_payment_once_example =
    confirm_payment_once same cents 9 7 (some ref) none [] unpaid (left confirmed)
      (answer confirmed) 11 7 (some (67 ∷ 67 ∷ 67 ∷ 67 ∷ [])) none [] refl (inl refl)

abbrev paid : Db
paid = shop paid_unassigned (receipt ∷ []) [] 0

abbrev lost : Db
lost = after (transition_order 9 7 failed_refund [] none) paid

fail-owes_example :
    (r : Refund) × (find_open 7 lost.refunds ≡ some r) × (r.amount ≡ paid_total 7 paid.payments)
unfolding transition_order assert_transition insert_message auto_respond refund_if_failed
    open_refund_if_owed create_refund can_transition auto_responses
fail-owes_example = fail-owes 9 7 [] none paid lost _ (omega arith) refl refl

abbrev owing : Db
owing = shop failed_refund (receipt ∷ []) (debt ∷ []) 0

abbrev closing : Closing
closing = settles 9 (some ref) none []

abbrev closed : Result Refund × Db
closed = close closing 3 owing

abbrev closed_refund : Result Refund × Db → Refund
closed_refund (ok r, db) = r
closed_refund (e, db) = debt

close_once_example :
    (outstanding (left closed) + (closed_refund closed).amount ≡ outstanding owing)
    × Refused (close (waives 12 (some ref) []) 3 (left closed)) (left closed)
    × (update_refund 3 (waiver 12 ref []) (left closed)
        ≡ ok (
          waiver 12 ref [] (closed_refund closed),
          record (left closed) {
            refunds = update_by (λ x. x.id) 3 (waiver 12 ref []) (left closed).refunds;
          },
        ))
unfolding settle_refund settle_with close_refund read_owed update_refund trim
    with_critical_transaction
close_once_example =
    close_once closing (waives 12 (some ref) []) (waiver 12 ref []) 3 owing (left closed)
      (closed_refund closed) refl
