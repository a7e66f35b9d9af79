-- ===== src/Realtime/Tests.antt =====
-- A desk that listens, a driver with a feed and a customer in a room.
use ghost_merchant.Base.{refl, true, Option, none, some, List, [], ◌∷◌, All, arith}
use ghost_merchant.Base.Text.{Text, text_eq}
use ghost_merchant.Domain.Access.{Auth, Owned, operator, driver, can_access_order}
use ghost_merchant.Realtime.Sockets.{
  pong, broadcast_to_order, to_desk, to_driver, auth, subscribe, join_room, handle_subscribe,
  sign_on, subscribe_operator, subscribe_driver, command, on_message,
}
use ghost_merchant.Realtime.Sockets.Life.{
  Happening, connected, framed, on_connection, happen, run, Keeps, Steady, empty_hub,
}
use ghost_merchant.Realtime.Sockets.Sound.{Named}
use ghost_merchant.Realtime.Sockets.Entitled.{Allowed, target, broadcast_to_order-Allowed}

abbrev desk : Auth
desk = record { role = operator; uid = none; id = none }

abbrev rider : Auth
rider = record { role = driver; uid = none; id = some (49 ∷ []) }

-- the empty token is the desk's, any other is the driver's
abbrev session : Text → Option Auth
session t = elim t [ [] ↦ some desk | c ∷ s ↦ some rider ]

abbrev owned : Owned
owned = record { user_id = some 4; driver_id = some (49 ∷ []) }

abbrev orders : Text → Option Owned
orders key = some owned

abbrev moments : List ((Text → Option Owned) × Happening)
moments =
    (orders, connected 1 true)
    ∷ (orders, framed 1 (auth []))
    ∷ (orders, framed 1 to_desk)
    ∷ (orders, connected 2 true)
    ∷ (orders, framed 2 (auth (50 ∷ [])))
    ∷ (orders, framed 2 to_driver)
    ∷ (orders, framed 2 (subscribe (55 ∷ [])))
    ∷ []

session-Named : (t : Text) → Named (session t)
unfolding Named
session-Named [] a at r = absurd (ground arith)
session-Named (c ∷ s) a at r = (49 ∷ [], ground arith)

moments-Steady : Steady session moments empty_hub
unfolding Steady Keeps happen on_message on_connection sign_on command subscribe_operator
    subscribe_driver handle_subscribe join_room can_access_order empty_hub text_eq
moments-Steady = (
  refl,
  (
    (λ a b p q. absurd (ground arith)),
    (tt, (refl, ((λ a b p q. absurd (ground arith)), (tt, (tt, tt))))),
  ),
)

broadcast_to_order-Allowed_example :
    All
      (λ out. Allowed (run session moments empty_hub).auth (some owned) (target out))
      (broadcast_to_order orders (55 ∷ []) pong (run session moments empty_hub)).1
broadcast_to_order-Allowed_example =
    broadcast_to_order-Allowed session session-Named moments orders (55 ∷ []) pong moments-Steady
