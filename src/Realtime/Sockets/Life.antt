-- ===== src/Realtime/Sockets/Life.antt =====
-- What happens to the sockets: `attachSocketServer`, as a sequence of moments.
use ghost_merchant.Base.{
  ℕ, ◌≡◌, Bool, true, false, not, Option, none, some, List, [], ◌∷◌, filter, ◌==◌,
}
use ghost_merchant.Base.Text.{Text}
use ghost_merchant.Domain.Access.{Auth, Owned}
use ghost_merchant.Realtime.Sockets.{
  Output, closed, Hub, Message, auth, news, set, leave_all, send_all, broadcast_to_order,
  on_message,
}

-- A connection with the limiter's answer, a frame, the authentication timer, a pong, a close or an
-- error, the heartbeat, an event about an order, and one for the desk.
pub data Happening : Type 0 where
  connected : ℕ → Bool → Happening
  framed : ℕ → Message → Happening
  timed_out ponged gone : ℕ → Happening
  heartbeat : Happening
  published : Text → Text → Happening
  announced : Text → Happening

unfoldable pub on_connection : ℕ → Bool → Hub → Hub × List Output
on_connection ws allowed hub = (
  record hub {
    auth = set ws none hub.auth;
    joined = set ws [] hub.joined;
    is_alive = set ws true hub.is_alive;
    is_open = set ws true hub.is_open;
    clients = ws ∷ hub.clients;
  },
  elim allowed [ true ↦ [] | false ↦ closed ws 4429 ∷ [] ],
)

-- the timer of `AUTH_TIMEOUT_MS`
abbrev pub on_timeout : ℕ → Option Auth → List Output
on_timeout ws none = closed ws 4401 ∷ []
on_timeout ws (some a) = []

unfoldable pub on_close : ℕ → Hub → Hub
on_close ws hub = leave_all ws (record hub {
  is_open = set ws false hub.is_open;
  clients = filter (λ n. not (n == ws)) hub.clients;
})

-- one socket of the heartbeat: out, when it did not answer the last ping
unfoldable pub beat : ℕ → Bool → Hub → Hub
beat ws true hub = record hub { is_alive = set ws false hub.is_alive }
beat ws false hub = leave_all ws (record hub { is_open = set ws false hub.is_open })

unfoldable pub beat_all : List ℕ → Hub → Hub
beat_all [] hub = hub
beat_all (ws ∷ clients) hub = beat_all clients (beat ws (hub.is_alive ws) hub)

module _ (verify : Text → Option Auth) where
  unfoldable pub happen : (Text → Option Owned) → Happening → Hub → Hub × List Output
  happen orders (connected ws allowed) hub = on_connection ws allowed hub
  happen orders (framed ws m) hub = on_message verify orders ws m hub
  happen orders (timed_out ws) hub = (hub, on_timeout ws (hub.auth ws))
  happen orders (ponged ws) hub = (record hub { is_alive = set ws true hub.is_alive }, [])
  happen orders (gone ws) hub = (on_close ws hub, [])
  happen orders heartbeat hub = (beat_all hub.clients hub, [])
  happen orders (published key body) hub = broadcast_to_order orders key (news body) hub
  happen orders (announced body) hub = (hub, send_all hub (news body) hub.operators)

  -- A run, with the orders as they stand at each moment.
  unfoldable pub run : List ((Text → Option Owned) × Happening) → Hub → Hub
  run [] hub = hub
  run ((orders, h) ∷ more) hub = run more (happen orders h hub).0

  -- A socket is new when it connects, and it keeps its identity once it has one.
  unfoldable pub Keeps : Happening → Hub → Type 0
  Keeps (connected ws allowed) hub = hub.auth ws ≡ none
  Keeps (framed ws (auth token)) hub =
      (a b : Auth) → hub.auth ws ≡ some a → verify token ≡ some b → a ≡ b
  Keeps _ hub = Unit {0}

  unfoldable pub Steady : List ((Text → Option Owned) × Happening) → Hub → Type 0
  unfolding Keeps
  Steady [] hub = Unit {0}
  Steady ((orders, h) ∷ more) hub = Keeps h hub × Steady more (happen orders h hub).0

unfoldable pub empty_hub : Hub
empty_hub = record {
  auth = λ ws. none;
  joined = λ ws. [];
  is_alive = λ ws. false;
  is_open = λ ws. false;
  clients = [];
  rooms = [];
  operators = [];
  feeds = [];
}
