-- ===== src/Domain/StateMachine.antt =====
-- The order state machine (backend/src/domain/stateMachine.js).
pub mod Graph
use ghost_merchant.Base.{Bool, true, false, Option, none, some, List, [], ◌∷◌, any}
use ghost_merchant.Base.Text.{Text, text}

pub data Status : Type 0 where
  pending_payment paid_unassigned dispatched in_transit delivered failed_refund : Status

-- The constants' own spelling.
unfoldable pub status_name : Status → Text
status_name pending_payment = text "PENDING_PAYMENT"
status_name paid_unassigned = text "PAID_UNASSIGNED"
status_name dispatched = text "DISPATCHED"
status_name in_transit = text "IN_TRANSIT"
status_name delivered = text "DELIVERED"
status_name failed_refund = text "FAILED_REFUND"

abbrev pub same_status : Status → Status → Bool
same_status pending_payment pending_payment = true
same_status paid_unassigned paid_unassigned = true
same_status dispatched dispatched = true
same_status in_transit in_transit = true
same_status delivered delivered = true
same_status failed_refund failed_refund = true
same_status _ _ = false

-- `TRANSITIONS`
unfoldable pub transitions : Status → List Status
transitions pending_payment = paid_unassigned ∷ failed_refund ∷ []
transitions paid_unassigned = dispatched ∷ failed_refund ∷ []
transitions dispatched = in_transit ∷ failed_refund ∷ []
transitions in_transit = delivered ∷ failed_refund ∷ []
transitions delivered = []
transitions failed_refund = []

unfoldable pub can_transition : Status → Status → Bool
unfolding transitions
can_transition from to = any (same_status to) (transitions from)

-- `AUTO_RESPONSES`
unfoldable pub auto_responses : Status → Option Text
auto_responses pending_payment = none
auto_responses paid_unassigned =
    some (text "Payment confirmed. We are finding a driver for you now.")
auto_responses dispatched =
    some (text "A driver has accepted your order and is heading to the market.")
auto_responses in_transit = some (text "Your driver has the items and is on the way to you.")
auto_responses delivered = some (text "Your order has been delivered. Thank you!")
auto_responses failed_refund =
    some (text "There was a problem with your order. An operator will contact you shortly.")
