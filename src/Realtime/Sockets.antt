-- ===== src/Realtime/Sockets.antt =====
-- The socket layer (backend/src/realtime/socketServer.js). A socket is a number. The verification
-- of a token, with `hasIdentity`, and the reading of an order are parameters, and so is the answer
-- of the limiter. A Map of Sets without empty ones is the list of its pairs.
pub mod Life
pub mod Sound
pub mod Entitled
use ghost_merchant.Base.{
  ℕ, Bool, true, false, not, ◌&&◌, Option, none, some, List, [], ◌∷◌, ◌++◌, map, filter, any,
  length, leb, ◌==◌, if◌then◌else◌,
}
use ghost_merchant.Base.Text.{Text, text, text_eq}
use ghost_merchant.Domain.Access.{Auth, Role, Owned, operator, driver, can_access_order}

-- A socket in the room of an order, or in the feed of a driver.
pub record Seat : Type 0 where
  pub key : Text
  pub member : ℕ

pub data Frame : Type 0 where
  pong auth_error subscribed_operator subscribed_driver : Frame
  authenticated : Role → Frame
  refused : Text → Frame
  subscribed : Text → Frame
  news : Text → Frame

pub data Output : Type 0 where
  sent : ℕ → Frame → Output
  closed : ℕ → ℕ → Output

-- The module's tables and the fields of every socket.
pub record Hub : Type 0 where
  pub auth : ℕ → Option Auth
  pub joined : ℕ → List Text
  pub is_alive : ℕ → Bool
  pub is_open : ℕ → Bool
  pub clients : List ℕ
  pub rooms : List Seat
  pub operators : List ℕ
  pub feeds : List Seat

abbrev pub max_rooms_per_socket : ℕ
max_rooms_per_socket = 50

abbrev pub set {ℓ} : {A : Type ℓ} → ℕ → A → (ℕ → A) → ℕ → A
set ws a f n = if n == ws then a else f n

abbrev is_seat : Text → ℕ → Seat → Bool
is_seat key ws s = text_eq s.key key && s.member == ws

-- `add` of a Set
abbrev add_key : Text → List Text → List Text
add_key key keys = if any (λ k. text_eq k key) keys then keys else keys ++ key ∷ []

abbrev pub add_seat : Text → ℕ → List Seat → List Seat
add_seat key ws seats =
    if any (is_seat key ws) seats then seats else seats ++ record { key = key; member = ws } ∷ []

abbrev pub add_member : ℕ → List ℕ → List ℕ
add_member ws members = if any (λ n. n == ws) members then members else members ++ ws ∷ []

-- `joinRoom`
unfoldable pub join_room : Text → ℕ → Hub → Hub
join_room key ws hub = record hub {
  rooms = add_seat key ws hub.rooms;
  joined = set ws (add_key key (hub.joined ws)) hub.joined;
}

-- `leaveAll`
unfoldable pub leave_all : ℕ → Hub → Hub
leave_all ws hub = record hub {
  rooms = filter (λ s. not (s.member == ws)) hub.rooms;
  feeds = filter (λ s. not (s.member == ws)) hub.feeds;
  operators = filter (λ n. not (n == ws)) hub.operators;
}

-- `send`
unfoldable pub send : Hub → ℕ → Frame → List Output
send hub ws frame = if hub.is_open ws then sent ws frame ∷ [] else []

-- `leaveRoomOnly`
unfoldable pub leave_room_only : ℕ → Text → Hub → Hub
leave_room_only ws key hub = record hub {
  rooms = filter (λ s. not (is_seat key ws s)) hub.rooms;
  joined = set ws (filter (λ k. not (text_eq k key)) (hub.joined ws)) hub.joined;
}

-- those who are not entitled leave the room
unfoldable pub evict : Option Owned → Text → List ℕ → Hub → Hub
evict order key [] hub = hub
evict order key (ws ∷ members) hub =
    let after = evict order key members hub in
    if can_access_order (hub.auth ws) order then after else leave_room_only ws key after

abbrev pub seated : Text → List Seat → List ℕ
seated key seats = map (λ s. s.member) (filter (λ s. text_eq s.key key) seats)

-- `deliver` for each of them, after those who have it
unfoldable pub deliver : List ℕ → List ℕ → List ℕ
deliver delivered [] = delivered
deliver delivered (ws ∷ targets) = deliver (add_member ws delivered) targets

-- the feed of the driver who has the order
abbrev pub feed_of : Option Owned → List Seat → List ℕ
feed_of none feeds = []
feed_of (some order) feeds = elim order.driver_id [ none ↦ [] | some d ↦ seated d feeds ]

-- who gets an event about an order
unfoldable pub recipients : Option Owned → Text → Hub → List ℕ
recipients order key hub = deliver [] (
    filter (λ ws. can_access_order (hub.auth ws) order) (seated key hub.rooms)
    ++ feed_of order hub.feeds
    ++ hub.operators)

abbrev pub send_all : Hub → Frame → List ℕ → List Output
send_all hub frame [] = []
send_all hub frame (ws ∷ targets) = send hub ws frame ++ send_all hub frame targets

-- `broadcastToOrder`
unfoldable pub broadcast_to_order : (Text → Option Owned) → Text → Frame → Hub → Hub × List Output
broadcast_to_order get_order key frame hub = (
  evict (get_order key) key (seated key hub.rooms) hub,
  send_all hub frame (recipients (get_order key) key hub),
)

-- `handleSubscribe`
unfoldable pub handle_subscribe : (Text → Option Owned) → ℕ → Text → Hub → Hub × List Output
handle_subscribe get_order ws key hub =
    if leb max_rooms_per_socket (length (hub.joined ws))
    then (hub, send hub ws (refused (text "subscription limit reached")))
    else if can_access_order (hub.auth ws) (get_order key)
    then (join_room key ws hub, send hub ws (subscribed key))
    else (hub, send hub ws (refused (text "not found")))

-- A frame of the client's: a token, the subscriptions, or anything else.
pub data Message : Type 0 where
  ping to_desk to_driver unknown : Message
  auth : Text → Message
  subscribe : Text → Message

-- the answer to a token
unfoldable pub sign_on : ℕ → Option Auth → Hub → Hub × List Output
sign_on ws none hub = (hub, send hub ws auth_error ++ closed ws 4403 ∷ [])
sign_on ws (some a) hub =
    (record hub { auth = set ws (some a) hub.auth }, send hub ws (authenticated a.role))

unfoldable pub subscribe_operator : ℕ → Role → Hub → Hub × List Output
subscribe_operator ws operator hub =
    (record hub { operators = add_member ws hub.operators }, send hub ws subscribed_operator)
subscribe_operator ws _ hub = (hub, send hub ws (refused (text "forbidden")))

-- `String(ws.auth.id)`
abbrev pub feed_key : Option Text → Text
feed_key none = text "undefined"
feed_key (some id) = id

unfoldable pub subscribe_driver : ℕ → Role → Option Text → Hub → Hub × List Output
subscribe_driver ws driver id hub =
    (record hub { feeds = add_seat (feed_key id) ws hub.feeds }, send hub ws subscribed_driver)
subscribe_driver ws _ id hub = (hub, send hub ws (refused (text "forbidden")))

-- what a socket with a session may ask for
unfoldable pub command : (Text → Option Owned) → ℕ → Auth → Message → Hub → Hub × List Output
command get_order ws a (subscribe key) hub = handle_subscribe get_order ws key hub
command get_order ws a to_desk hub = subscribe_operator ws a.role hub
command get_order ws a to_driver hub = subscribe_driver ws a.role a.id hub
command get_order ws a _ hub = (hub, [])

abbrev pub authorized : (Text → Option Owned) → ℕ → Option Auth → Message → Hub → Hub × List Output
authorized get_order ws none m hub = (hub, send hub ws (refused (text "not authenticated")))
authorized get_order ws (some a) m hub = command get_order ws a m hub

-- the handler of a frame
unfoldable pub on_message :
    (Text → Option Auth) → (Text → Option Owned) → ℕ → Message → Hub → Hub × List Output
on_message verify get_order ws ping hub = (hub, send hub ws pong)
on_message verify get_order ws (auth token) hub = sign_on ws (verify token) hub
on_message verify get_order ws m hub = authorized get_order ws (hub.auth ws) m hub
