-- ===== src/Realtime/Sockets/Entitled.antt =====
-- Who hears of an order.
use ghost_merchant.Base.{
  ℕ, ◌≡◌, refl, ap, ◌∙◌, ◌⊎◌, inl, inr, Bool, true, false, Option, none, some, List, [], ◌∷◌, ◌++◌,
  map, filter, any, All, ◌==◌, if◌then◌else◌, arith,
}
use ghost_merchant.Base.Text.{Text, text_eq, text_eq-eq}
use ghost_merchant.Base.Keys.{All-append, All-if, All_mono}
use ghost_merchant.Domain.Access.{
  Auth, Owned, operator, can_access_order, MayAccess, assigned, can_access_order-MayAccess,
}
use ghost_merchant.Realtime.Sockets.{
  Hub, Output, sent, closed, Frame, send, send_all, Seat, add_member, seated, deliver, feed_of,
  recipients, broadcast_to_order,
}
use ghost_merchant.Realtime.Sockets.Life.{Happening, run, Steady, empty_hub}
use ghost_merchant.Realtime.Sockets.Sound.{Desk, Own, Named, IsSound, run-IsSound, empty-IsSound}

-- A socket may have an event about an order: it is signed in, at the desk or entitled to the order.
pub Allowed : (ℕ → Option Auth) → Option Owned → ℕ → Type 0
Allowed who order ws =
    (a : Auth) × (who ws ≡ some a)
    × (a.role ≡ operator ⊎ ((o : Owned) × (order ≡ some o) × MayAccess a o))

can-Allowed :
    (who : ℕ → Option Auth) (order known : Option Owned) (ws : ℕ) (w : Option Auth)
    → who ws ≡ w
    → order ≡ known
    → can_access_order w known ≡ true
    → Allowed who order ws
unfolding Allowed can_access_order
can-Allowed who order known ws none at e h = absurd (ground arith)
can-Allowed who order none ws (some a) at e h = absurd (ground arith)
can-Allowed who order (some o) ws (some a) at e h =
    (a, at, inr (o, e, (can_access_order-MayAccess a o).0 h))

room-Allowed :
    (who : ℕ → Option Auth) (order : Option Owned) (members : List ℕ)
    → All (Allowed who order) (filter (λ ws. can_access_order (who ws) order) members)
room-Allowed who order [] = tt
room-Allowed who order (ws ∷ members) =
    pick (room-Allowed who order members) (can_access_order (who ws) order) refl
  where
    pick :
        All (Allowed who order) (filter (λ n. can_access_order (who n) order) members)
        → (b : Bool) → can_access_order (who ws) order ≡ b
        → All (Allowed who order) (
            if b
            then ws ∷ filter (λ n. can_access_order (who n) order) members
            else filter (λ n. can_access_order (who n) order) members)
    pick others true h = (can-Allowed who order order ws (who ws) refl refl h, others)
    pick others false h = others

seated-Allowed :
    (who : ℕ → Option Auth) (order : Option Owned) (o : Owned) (d : Text) (feeds : List Seat)
    → order ≡ some o
    → o.driver_id ≡ some d
    → All (Own who) feeds
    → All (Allowed who order) (seated d feeds)
unfolding Allowed Own
seated-Allowed who order o d [] e known h = tt
seated-Allowed who order o d (seat ∷ feeds) e known ((a, at, r, id), h) =
    pick (seated-Allowed who order o d feeds e known h) (text_eq seat.key d) refl
  where
    pick :
        All (Allowed who order) (seated d feeds)
        → (b : Bool) → text_eq seat.key d ≡ b
        → All (Allowed who order) (
            map
              (λ s. s.member)
              (if b
                then seat ∷ filter (λ s. text_eq s.key d) feeds
                else filter (λ s. text_eq s.key d) feeds))
    pick others true same = (
      (a, at, inr (o, e, assigned d r (id ∙ ap some (text_eq-eq seat.key d same)) known)),
      others,
    )
    pick others false same = others

feed-Allowed :
    (who : ℕ → Option Auth) (order known : Option Owned) (feeds : List Seat)
    → order ≡ known
    → All (Own who) feeds
    → All (Allowed who order) (feed_of known feeds)
feed-Allowed who order none feeds e h = tt
feed-Allowed who order (some o) feeds e h = pick o.driver_id refl
  where
    pick :
        (d : Option Text)
        → o.driver_id ≡ d
        → All (Allowed who order) (elim d [ none ↦ [] | some i ↦ seated i feeds ])
    pick none known = tt
    pick (some d) known = seated-Allowed who order o d feeds e known h

deliver-All {κ} :
    (P : ℕ → Type κ) (delivered targets : List ℕ)
    → All P delivered
    → All P targets
    → All P (deliver delivered targets)
unfolding deliver
deliver-All P delivered [] h k = h
deliver-All P delivered (ws ∷ targets) h (a, k) =
    deliver-All P (add_member ws delivered) targets
      (All-if P (any (λ n. n == ws) delivered) delivered (delivered ++ ws ∷ []) h
        (All-append P delivered (ws ∷ []) h (a, tt)))
      k

recipients-Allowed :
    (order : Option Owned) (key : Text) (hub : Hub)
    → IsSound hub
    → All (Allowed hub.auth order) (recipients order key hub)
unfolding recipients Allowed Desk
recipients-Allowed order key hub s = deliver-All (Allowed hub.auth order) [] _ tt (
    All-append (Allowed hub.auth order) _ _
      (All-append (Allowed hub.auth order) _ _ (room-Allowed hub.auth order (seated key hub.rooms))
        (feed-Allowed hub.auth order order hub.feeds refl s.own))
      (All_mono hub.operators (λ ws (a, at, r). (a, at, inl r)) s.desk))

-- The socket that an output goes to.
abbrev pub target : Output → ℕ
target (sent ws frame) = ws
target (closed ws code) = ws

send_all-All {κ} :
    (P : ℕ → Type κ) (hub : Hub) (frame : Frame) (targets : List ℕ)
    → All P targets
    → All (λ out. P (target out)) (send_all hub frame targets)
unfolding send
send_all-All P hub frame [] h = tt
send_all-All P hub frame (ws ∷ targets) (a, h) =
    All-append (λ out. P (target out)) (send hub ws frame) (send_all hub frame targets)
      (All-if (λ out. P (target out)) (hub.is_open ws) (sent ws frame ∷ []) [] (a, tt) tt)
      (send_all-All P hub frame targets h)

module _ (verify : Text → Option Auth) (tokens : (t : Text) → Named (verify t)) where
  -- An event about an order reaches nobody who may not see the order: after any sequence of
  -- connections, frames, timers, pongs, closes, heartbeats and events, with the orders as they stood
  -- at each moment, every socket that the broadcast sends to is signed in, and is the desk's or may
  -- access the order as it stands now. A socket keeps the identity that it has, and every driver's
  -- token names the driver.
  pub broadcast_to_order-Allowed :
      (moments : List ((Text → Option Owned) × Happening)) (orders : Text → Option Owned)
      (key : Text) (frame : Frame)
      → Steady verify moments empty_hub
      → All
          (λ out. Allowed (run verify moments empty_hub).auth (orders key) (target out))
          (broadcast_to_order orders key frame (run verify moments empty_hub)).1
  unfolding broadcast_to_order
  broadcast_to_order-Allowed moments orders key frame steady =
      send_all-All (Allowed (run verify moments empty_hub).auth (orders key))
        (run verify moments empty_hub) frame
        (recipients (orders key) key (run verify moments empty_hub))
        (recipients-Allowed (orders key) key (run verify moments empty_hub)
          (run-IsSound verify tokens moments empty_hub steady (empty-IsSound verify tokens)))
