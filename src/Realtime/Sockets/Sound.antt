-- ===== src/Realtime/Sockets/Sound.antt =====
-- Who sits where: the desk's set holds operators, a driver's feed that driver.
use ghost_merchant.Base.{
  ℕ, ◌≡◌, refl, sym, ap, ◌∙◌, subst, inl, inr, Bool, true, false, not, Option, none, some, List, [],
  ◌∷◌, ◌++◌, any, All, ◌==◌, if◌then◌else◌, leb, length, arith, Bool-cases,
}
use ghost_merchant.Base.Text.{Text}
use ghost_merchant.Base.Keys.{All-filter, All-append, All-if, All_mono}
use ghost_merchant.Domain.Access.{
  Auth, Role, Owned, operator, customer, driver, other, can_access_order,
}
use ghost_merchant.Realtime.Sockets.{
  Hub, Output, Seat, Message, ping, to_desk, to_driver, unknown, auth, subscribe, set, join_room,
  leave_all, leave_room_only, evict, seated, broadcast_to_order, handle_subscribe, sign_on,
  subscribe_operator, subscribe_driver, feed_key, command, authorized, on_message,
  max_rooms_per_socket,
}
use ghost_merchant.Realtime.Sockets.Life.{
  Happening, connected, framed, timed_out, ponged, gone, heartbeat, published, announced,
  on_connection, on_close, beat, beat_all, happen, run, Keeps, Steady, empty_hub,
}

-- A socket of the desk's, and a seat in the feed of the socket's own driver.
unfoldable pub Desk : (ℕ → Option Auth) → ℕ → Type 0
Desk who ws = (a : Auth) × (who ws ≡ some a) × (a.role ≡ operator)

unfoldable pub Own : (ℕ → Option Auth) → Seat → Type 0
Own who s = (a : Auth) × (who s.member ≡ some a) × (a.role ≡ driver) × (a.id ≡ some s.key)

-- Every driver's session names the driver.
unfoldable pub Named : Option Auth → Type 0
Named who = (a : Auth) → who ≡ some a → a.role ≡ driver → (d : Text) × (a.id ≡ some d)

pub record IsSound (hub : Hub) : Type 0 where
  pub desk : All (Desk hub.auth) hub.operators
  pub own : All (Own hub.auth) hub.feeds
  pub named : (ws : ℕ) → Named (hub.auth ws)

-- Identities that stay keep everything sound.
IsSound-auth :
    (hub : Hub) (who : ℕ → Option Auth)
    → ((ws : ℕ) (a : Auth) → hub.auth ws ≡ some a → who ws ≡ some a)
    → ((ws : ℕ) → Named (who ws))
    → IsSound hub
    → IsSound (record hub { auth = who })
unfolding Desk Own
IsSound-auth hub who stays named s = record {
  desk = All_mono hub.operators (λ ws (a, at, r). (a, stays ws a at, r)) s.desk;
  own = All_mono hub.feeds (λ seat (a, at, r, id). (a, stays seat.member a at, r, id)) s.own;
  named = named;
}

leave_all-IsSound : (ws : ℕ) (hub : Hub) → IsSound hub → IsSound (leave_all ws hub)
unfolding leave_all
leave_all-IsSound ws hub s = record {
  desk = All-filter (Desk hub.auth) (λ n. not (n == ws)) hub.operators s.desk;
  own = All-filter (Own hub.auth) (λ seat. not (seat.member == ws)) hub.feeds s.own;
  named = s.named;
}

evict-IsSound :
    (order : Option Owned) (key : Text) (members : List ℕ) (hub : Hub)
    → IsSound hub
    → IsSound (evict order key members hub)
unfolding evict leave_room_only
evict-IsSound order key [] hub s = s
evict-IsSound order key (ws ∷ members) hub s =
    pick (can_access_order (hub.auth ws) order) (evict-IsSound order key members hub s)
  where
    pick :
        {after : Hub} (b : Bool)
        → IsSound after
        → IsSound (if b then after else leave_room_only ws key after)
    pick true s = s
    pick false s = record { desk = s.desk; own = s.own; named = s.named }

beat-IsSound : (ws : ℕ) (b : Bool) (hub : Hub) → IsSound hub → IsSound (beat ws b hub)
unfolding beat
beat-IsSound ws true hub s = record { desk = s.desk; own = s.own; named = s.named }
beat-IsSound ws false hub s =
    leave_all-IsSound ws (record hub { is_open = set ws false hub.is_open })
      (record { desk = s.desk; own = s.own; named = s.named })

beat_all-IsSound : (clients : List ℕ) (hub : Hub) → IsSound hub → IsSound (beat_all clients hub)
unfolding beat_all
beat_all-IsSound [] hub s = s
beat_all-IsSound (ws ∷ clients) hub s =
    beat_all-IsSound clients (beat ws (hub.is_alive ws) hub)
      (beat-IsSound ws (hub.is_alive ws) hub s)

subscribe_operator-IsSound :
    (ws : ℕ) (a : Auth) (r : Role) (hub : Hub)
    → hub.auth ws ≡ some a
    → a.role ≡ r
    → IsSound hub
    → IsSound (subscribe_operator ws r hub).0
unfolding subscribe_operator Desk
subscribe_operator-IsSound ws a operator hub at e s = record {
  desk =
      All-if (Desk hub.auth) (any (λ n. n == ws) hub.operators) hub.operators
        (hub.operators ++ ws ∷ []) s.desk
        (All-append (Desk hub.auth) hub.operators (ws ∷ []) s.desk ((a, at, e), tt));
  own = s.own;
  named = s.named;
}
subscribe_operator-IsSound ws a customer hub at e s = s
subscribe_operator-IsSound ws a driver hub at e s = s
subscribe_operator-IsSound ws a other hub at e s = s

subscribe_driver-IsSound :
    (ws : ℕ) (a : Auth) (r : Role) (hub : Hub)
    → hub.auth ws ≡ some a
    → a.role ≡ r
    → IsSound hub
    → IsSound (subscribe_driver ws r a.id hub).0
unfolding subscribe_driver Own Named
subscribe_driver-IsSound ws a driver hub at e s =
    let (d, id) = s.named ws a at e in
    record {
      desk = s.desk;
      own = All-if (Own hub.auth) _ hub.feeds _ s.own (
          All-append (Own hub.auth) hub.feeds _ s.own
            ((a, at, e, id ∙ sym (ap (λ i. some (feed_key i)) id)), tt));
      named = s.named;
    }
subscribe_driver-IsSound ws a customer hub at e s = s
subscribe_driver-IsSound ws a operator hub at e s = s
subscribe_driver-IsSound ws a other hub at e s = s

handle_subscribe-IsSound :
    (orders : Text → Option Owned) (ws : ℕ) (key : Text) (hub : Hub)
    → IsSound hub
    → IsSound (handle_subscribe orders ws key hub).0
unfolding handle_subscribe join_room
handle_subscribe-IsSound orders ws key hub s =
    pick _ _ _ (leb max_rooms_per_socket (length (hub.joined ws)))
      (can_access_order (hub.auth ws) (orders key))
  where
    pick :
        (x y z : List Output) (full may : Bool)
        → IsSound
            (if◌then◌else◌ {A = Hub × List Output} full
              (hub, x)
              (if may then (join_room key ws hub, y) else (hub, z))).0
    pick x y z true may = s
    pick x y z false true = record { desk = s.desk; own = s.own; named = s.named }
    pick x y z false false = s

command-IsSound :
    (orders : Text → Option Owned) (ws : ℕ) (a : Auth) (m : Message) (hub : Hub)
    → hub.auth ws ≡ some a
    → IsSound hub
    → IsSound (command orders ws a m hub).0
unfolding command
command-IsSound orders ws a (subscribe key) hub at s = handle_subscribe-IsSound orders ws key hub s
command-IsSound orders ws a to_desk hub at s = subscribe_operator-IsSound ws a a.role hub at refl s
command-IsSound orders ws a to_driver hub at s = subscribe_driver-IsSound ws a a.role hub at refl s
command-IsSound orders ws a ping hub at s = s
command-IsSound orders ws a unknown hub at s = s
command-IsSound orders ws a (auth token) hub at s = s

authorized-IsSound :
    (orders : Text → Option Owned) (ws : ℕ) (who : Option Auth) (m : Message) (hub : Hub)
    → hub.auth ws ≡ who
    → IsSound hub
    → IsSound (authorized orders ws who m hub).0
authorized-IsSound orders ws none m hub at s = s
authorized-IsSound orders ws (some a) m hub at s = command-IsSound orders ws a m hub at s

-- Setting the identity of one socket.
set-stays :
    (who : ℕ → Option Auth) (ws n : ℕ) (a : Auth) (new : Option Auth)
    → ((b : Auth) → who ws ≡ some b → new ≡ some b)
    → who n ≡ some a
    → set ws new who n ≡ some a
set-stays who ws n a new same at = elim (Bool-cases (n == ws)) [
  | inl here ↦ ground (arith, same a, at)
  | inr away ↦ ground (arith, at)
]

set-Named :
    (who : ℕ → Option Auth) (ws n : ℕ) (new : Option Auth)
    → Named new
    → ((n : ℕ) → Named (who n))
    → Named (set ws new who n)
set-Named who ws n new h named = pick (n == ws)
  where
    pick : (b : Bool) → Named (if b then new else who n)
    pick true = h
    pick false = named n

module _ (verify : Text → Option Auth) (tokens : (t : Text) → Named (verify t)) where
  sign_on-IsSound :
      (ws : ℕ) (token : Text) (who : Option Auth) (hub : Hub)
      → verify token ≡ who
      → ((a b : Auth) → hub.auth ws ≡ some a → verify token ≡ some b → a ≡ b)
      → IsSound hub
      → IsSound (sign_on ws who hub).0
  unfolding sign_on
  sign_on-IsSound ws token none hub e keeps s = s
  sign_on-IsSound ws token (some b) hub e keeps s =
      IsSound-auth hub (set ws (some b) hub.auth)
        (λ n a at.
          set-stays hub.auth ws n a (some b) (λ c c_at. ap some (sym (keeps c b c_at e))) at)
        (λ n. set-Named hub.auth ws n (some b) (subst Named e (tokens token)) s.named) s

  on_message-IsSound :
      (orders : Text → Option Owned) (ws : ℕ) (m : Message) (hub : Hub)
      → Keeps verify (framed ws m) hub
      → IsSound hub
      → IsSound (on_message verify orders ws m hub).0
  unfolding on_message Keeps
  on_message-IsSound orders ws (auth token) hub keeps s =
      sign_on-IsSound ws token (verify token) hub refl keeps s
  on_message-IsSound orders ws ping hub keeps s = s
  on_message-IsSound orders ws (subscribe key) hub keeps s =
      authorized-IsSound orders ws (hub.auth ws) (subscribe key) hub refl s
  on_message-IsSound orders ws to_desk hub keeps s =
      authorized-IsSound orders ws (hub.auth ws) to_desk hub refl s
  on_message-IsSound orders ws to_driver hub keeps s =
      authorized-IsSound orders ws (hub.auth ws) to_driver hub refl s
  on_message-IsSound orders ws unknown hub keeps s =
      authorized-IsSound orders ws (hub.auth ws) unknown hub refl s

  connection-IsSound :
      (ws : ℕ) (allowed : Bool) (hub : Hub)
      → hub.auth ws ≡ none
      → IsSound hub
      → IsSound (on_connection ws allowed hub).0
  unfolding on_connection Named
  connection-IsSound ws allowed hub new s =
      let stays =
        IsSound-auth hub (set ws none hub.auth)
          (λ n a at. set-stays hub.auth ws n a none (λ c c_at. sym new ∙ c_at) at)
          (λ n. set-Named hub.auth ws n none (λ a at. absurd (ground arith)) s.named) s in
      record { desk = stays.desk; own = stays.own; named = stays.named }

  happen-IsSound :
      (orders : Text → Option Owned) (h : Happening) (hub : Hub)
      → Keeps verify h hub
      → IsSound hub
      → IsSound (happen verify orders h hub).0
  unfolding happen Keeps on_close broadcast_to_order
  happen-IsSound orders (connected ws allowed) hub keeps s =
      connection-IsSound ws allowed hub keeps s
  happen-IsSound orders (framed ws m) hub keeps s = on_message-IsSound orders ws m hub keeps s
  happen-IsSound orders (timed_out ws) hub keeps s = s
  happen-IsSound orders (ponged ws) hub keeps s = record {
    desk = s.desk;
    own = s.own;
    named = s.named;
  }
  happen-IsSound orders (gone ws) hub keeps s =
      leave_all-IsSound ws _ (record { desk = s.desk; own = s.own; named = s.named })
  happen-IsSound orders heartbeat hub keeps s = beat_all-IsSound hub.clients hub s
  happen-IsSound orders (published key body) hub keeps s =
      evict-IsSound (orders key) key (seated key hub.rooms) hub s
  happen-IsSound orders (announced body) hub keeps s = s

  pub run-IsSound :
      (moments : List ((Text → Option Owned) × Happening)) (hub : Hub)
      → Steady verify moments hub
      → IsSound hub
      → IsSound (run verify moments hub)
  unfolding run Steady
  run-IsSound [] hub steady s = s
  run-IsSound ((orders, h) ∷ more) hub (keeps, steady) s =
      run-IsSound more (happen verify orders h hub).0 steady (happen-IsSound orders h hub keeps s)

  pub empty-IsSound : IsSound empty_hub
  unfolding empty_hub Named
  empty-IsSound = record { desk = tt; own = tt; named = λ ws a at. absurd (ground arith) }
