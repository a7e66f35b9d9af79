-- ===== src/Middleware/Session.antt =====
-- Session tokens and the guards of the routes (backend/src/middleware/auth.js and authorize.js).
-- The keyed hash under the server's secret, the text of a session and its reading are parameters.
pub mod Tokens
use ghost_merchant.Base.{
  ℕ, ◌+◌, ◌*◌, ◌/◌, Bool, true, false, not, ◌&&◌, ◌||◌, Option, none, some, is_some, List, [], ◌∷◌,
  ◌++◌, any, ltb, ◌==◌, if◌then◌else◌,
}
use ghost_merchant.Base.Text.{Text, text, text_eq}
use ghost_merchant.Domain.Access.{
  Auth, Role, Owned, operator, customer, driver, other, can_access_order,
}
use ghost_merchant.Domain.Ids.{is_uuid}

abbrev pub staff_token_ttl_seconds : ℕ
staff_token_ttl_seconds = 60 * 60 * 12

abbrev pub customer_token_ttl_seconds : ℕ
customer_token_ttl_seconds = 60 * 60 * 24 * 30

-- The payload of a token; an `exp` that is no number is `none`.
pub record Session : Type 0 where
  pub auth : Auth
  pub exp : Option ℕ

-- the pieces of `token.split('.')`: up to the first dot, and what follows it
abbrev pub before_dot : Text → Text
before_dot [] = []
before_dot (c ∷ s) = if c == b'.' then [] else c ∷ before_dot s

abbrev pub after_dot : Text → Text
after_dot [] = []
after_dot (c ∷ s) = if c == b'.' then s else after_dot s

abbrev pub has_dot : Text → Bool
has_dot s = any (λ c. c == b'.') s

-- `signToken`
unfoldable pub sign_token : (Session → Text) → (Text → Text) → ℕ → Auth → ℕ → Text
sign_token encode hmac now auth ttl =
    let json = encode (record { auth = auth; exp = some (now / 1000 + ttl) }) in
    json ++ b'.' ∷ hmac json

-- a payload that has run out, or does not say when it will
unfoldable pub in_time : ℕ → Option Session → Option Session
in_time now none = none
in_time now (some s) = elim s.exp [
  | none ↦ none
  | some e ↦ if ltb e (now / 1000) then none else some s
]

abbrev pub is_signed : (Text → Text) → Text → Text → Bool
is_signed hmac [] sig = false
is_signed hmac (c ∷ json) [] = false
is_signed hmac (c ∷ json) (d ∷ sig) = text_eq (d ∷ sig) (hmac (c ∷ json))

-- `verifyToken`
unfoldable pub verify_token : (Text → Option Session) → (Text → Text) → ℕ → Text → Option Session
verify_token decode hmac now token =
    if has_dot token && is_signed hmac (before_dot token) (before_dot (after_dot token))
    then in_time now (decode (before_dot token))
    else none

-- `hasIdentity`
unfoldable pub has_identity : Auth → Bool
has_identity a = elim a.role [ customer ↦ is_some a.uid | _ ↦ true ]

abbrev same_role : Role → Role → Bool
same_role operator operator = true
same_role customer customer = true
same_role driver driver = true
same_role other other = true
same_role _ _ = false

-- `requireRole`: the session of the request, or 401
unfoldable pub require_role : List Role → Option Session → Option Auth
require_role roles none = none
require_role roles (some s) =
    if any (same_role s.auth.role) roles && has_identity s.auth then some s.auth else none

-- the order that a session may access, of those that there are
unfoldable pub accessible : Option Auth → Option Owned → Option Owned
accessible auth none = none
accessible auth (some o) = if can_access_order auth (some o) then some o else none

-- `requireOrderAccess`: the order that the handler gets, or 404; a query that throws is `none`
unfoldable pub require_order_access : (Text → Option Owned) → Option Auth → Text → Option Owned
require_order_access get_order auth id = if is_uuid id then accessible auth (get_order id) else none

-- `requireAuth, requireOrderAccess` of an order's route, with the status that turns it away
pub data Gate : Type 0 where
  turned_away : ℕ → Gate
  let_in : Auth → Owned → Gate

unfoldable pub admit : Auth → Option Owned → Gate
admit a none = turned_away 404
admit a (some o) = let_in a o

unfoldable pub order_route : (Text → Option Owned) → Option Session → Text → Gate
order_route get_order session id = elim (require_role (customer ∷ driver ∷ operator ∷ []) session) [
  | none ↦ turned_away 401
  | some a ↦ admit a (require_order_access get_order (some a) id)
]
