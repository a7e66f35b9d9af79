-- ===== src/Commands/Tests.antt =====
-- The commands on one order of seven and a half dollars, with one driver who may take it.
pub mod Sample
mod Money
mod System
mod Evidence
mod Pictures
use Sample.{order, shop, receipt, asha, after, created}
use ghost_merchant.Base.{Bool}
use ghost_merchant.Base.Int.{pos}
use ghost_merchant.Commands.Tests.Sample.{left}
use ghost_merchant.Base.Text.{Text, trim, text_eq}
use ghost_merchant.Domain.Ids.{is_uuid}
use ghost_merchant.Domain.Phone.{parse_phone}
use ghost_merchant.Domain.Evidence.{new_handoff_code}
use ghost_merchant.Db.{Order}
use ghost_merchant.Db.Tx.{Result, ok, with_critical_transaction}
use ghost_merchant.Commands.Orders.Create.{NewOrder, create_order}
use ghost_merchant.Commands.Orders.Create.Retry.{create_order-retry}
use ghost_merchant.Base.{
  ℕ, ◌≡◌, ◌≤◌, ◌==◌, refl, true, false, Option, none, some, List, [], ◌∷◌, arith, if◌then◌else◌,
  Bool-cases, inl, inr,
}
use ghost_merchant.Base.Text.{Text, text}
use ghost_merchant.Base.Decimal.{decimal}
use ghost_merchant.Domain.StateMachine.{
  pending_payment, paid_unassigned, dispatched, in_transit, delivered, can_transition,
  auto_responses,
}
use ghost_merchant.Domain.Rotation.{pick_driver, sort_drivers, sort_insert, first}
use ghost_merchant.Db.{Db}
use ghost_merchant.Db.Tx.{err, illegal_transition}
use ghost_merchant.Db.Rows.{order_of}
use ghost_merchant.Commands.Orders.{
  transition_order, assert_transition, insert_message, auto_respond, refund_if_failed,
}
use ghost_merchant.Commands.Orders.Transition.{
  moved, transition_order-moves, transition_order-illegal,
}
use ghost_merchant.Commands.Orders.History.{IsAudited, transition_order-IsAudited}
use ghost_merchant.Commands.Dispatch.{
  dispatch_order, give_to, assign_driver, candidates_of, candidate_of,
}
use ghost_merchant.Commands.Dispatch.Capacity.{
  IsCapped, dispatch_order-IsCapped, transition_order-IsCapped,
}

abbrev unpaid : Db
unpaid = shop pending_payment [] [] 0

abbrev paid : Db
paid = after (transition_order 9 7 paid_unassigned [] none) unpaid

transition_order-moves_example :
    (can_transition pending_payment paid_unassigned ≡ true)
    × (order_of 7 paid ≡ (
        if 7 == 7
        then some (moved 9 paid_unassigned (order pending_payment none))
        else order_of 7 unpaid))
unfolding transition_order insert_message auto_respond refund_if_failed can_transition
    auto_responses assert_transition
transition_order-moves_example =
    transition_order-moves 9 7 paid_unassigned [] none unpaid paid (order pending_payment none) _ 7
      refl refl

unpaid-IsAudited : IsAudited unpaid
unpaid-IsAudited id = ground arith

unpaid-IsCapped : IsCapped unpaid
unpaid-IsCapped d = ground arith

abbrev waiting : Db
waiting = shop paid_unassigned [] [] 0

waiting-IsCapped : IsCapped waiting
waiting-IsCapped d = ground arith

-- A request with an id, for an order of seven and a half dollars.
abbrev request : NewOrder
request = record {
  id = some (text "3f0c8a4e-1b2d-4c3e-9f00-0123456789ab");
  user_id = some 4;
  contact_phone = some (text "+252612345678");
  items = none;
  total_amount = pos 750;
  lat = none;
  lng = none;
  landmark = some (text "mosque");
}

abbrev as_number : Text → ℕ
as_number s = 8

abbrev first_call : Result (Order × Bool) × Db
first_call = create_order as_number 9 0 42 request unpaid

abbrev made : Result (Order × Bool) × Db → Order
made (ok (o, b), db) = o
made (err e, db) = order pending_payment none

create_order-retry_example :
    create_order as_number 12 1 77 request (left first_call)
    ≡ (ok (made first_call, false), left first_call)
unfolding create_order text trim text_eq parse_phone is_uuid with_critical_transaction
    new_handoff_code
create_order-retry_example =
    create_order-retry as_number 9 0 42 12 1 77 (text "3f0c8a4e-1b2d-4c3e-9f00-0123456789ab")
      request (made first_call) true unpaid (left first_call) refl refl
