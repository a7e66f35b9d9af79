-- ===== src/Middleware/Session/Tokens.antt =====
-- A token is good for as long as it says, and a route lets in those who may access its order.
use ghost_merchant.Base.{
  ℕ, ◌+◌, ◌/◌, ◌≤◌, ◌≡◌, ◌≢◌, refl, sym, ap, ◌∙◌, subst, true, false, Option, none, some, List, [],
  ◌∷◌, ◌++◌, arith, Bool-cases, Option-cases, inl, inr,
}
use ghost_merchant.Base.Text.{Text, text_eq, text_eq_refl}
use ghost_merchant.Domain.Access.{
  Auth, Role, Owned, customer, driver, operator, MayAccess, can_access_order,
  can_access_order-MayAccess,
}
use ghost_merchant.Domain.Ids.{is_uuid}
use ghost_merchant.Middleware.Session.{
  Session, before_dot, after_dot, has_dot, sign_token, in_time, is_signed, verify_token,
  has_identity, require_role, accessible, require_order_access, let_in, admit, order_route,
}

before_dot-append : (s t : Text) → has_dot s ≡ false → before_dot (s ++ b'.' ∷ t) ≡ s
before_dot-append [] t h = refl
before_dot-append (c ∷ s) t h = ground (arith, before_dot-append s t)

after_dot-append : (s t : Text) → has_dot s ≡ false → after_dot (s ++ b'.' ∷ t) ≡ t
after_dot-append [] t h = refl
after_dot-append (c ∷ s) t h = ground (arith, after_dot-append s t)

has_dot-append : (s t : Text) → has_dot (s ++ b'.' ∷ t) ≡ true
has_dot-append [] t = refl
has_dot-append (c ∷ s) t = ground (arith, has_dot-append s t)

before_dot_none : (s : Text) → has_dot s ≡ false → before_dot s ≡ s
before_dot_none [] h = refl
before_dot_none (c ∷ s) h = ground (arith, before_dot_none s)

is_signed_lem :
    (hmac : Text → Text) (json sig : Text)
    → json ≢ []
    → sig ≢ []
    → hmac json ≡ sig
    → is_signed hmac json sig ≡ true
is_signed_lem hmac [] sig some_json some_sig h = absurd (some_json refl)
is_signed_lem hmac (c ∷ json) [] some_json some_sig h = absurd (some_sig refl)
is_signed_lem hmac (c ∷ json) (d ∷ sig) some_json some_sig h =
    subst (λ s. text_eq (d ∷ sig) s ≡ true) (sym h) (text_eq_refl (d ∷ sig))

abbrev pub issued : ℕ → Auth → ℕ → Session
issued now a ttl = record { auth = a; exp = some (now / 1000 + ttl) }

-- A token signs its bearer in until it runs out: within the seconds that it was given, to the
-- second, it is read back as the session it was signed for. The reading undoes the text of the
-- session; that text and its hash have no dot and are not empty.
pub verify_token-sign_token :
    (encode : Session → Text) (decode : Text → Option Session) (hmac : Text → Text) (now later : ℕ)
    (a : Auth) (ttl : ℕ)
    → decode (encode (issued now a ttl)) ≡ some (issued now a ttl)
    → has_dot (encode (issued now a ttl)) ≡ false
    → encode (issued now a ttl) ≢ []
    → has_dot (hmac (encode (issued now a ttl))) ≡ false
    → hmac (encode (issued now a ttl)) ≢ []
    → later / 1000 ≤ now / 1000 + ttl
    → verify_token decode hmac later (sign_token encode hmac now a ttl) ≡ some (issued now a ttl)
unfolding verify_token sign_token in_time
verify_token-sign_token encode decode hmac now later a ttl undoes plain filled plain_hash hashed h =
    let json = encode (issued now a ttl) in
    let sig =
      ap before_dot (after_dot-append json (hmac json) plain)
      ∙ before_dot_none (hmac json) plain_hash in
    ground (
      arith,
      has_dot-append json (hmac json),
      before_dot-append json (hmac json) plain,
      sig,
      is_signed_lem hmac json (hmac json) filled hashed refl,
      undoes,
      h,
    )

require_role-in :
    (roles : List Role) (session : Option Session) (a : Auth)
    → require_role roles session ≡ some a
    → (s : Session) × (session ≡ some s) × (s.auth ≡ a) × (has_identity a ≡ true)
unfolding require_role
require_role-in roles none a h = absurd (ground arith)
require_role-in roles (some s) a h = (s, refl, ground arith, ground arith)

accessible-MayAccess :
    (a : Auth) (found : Option Owned) (o : Owned)
    → accessible (some a) found ≡ some o
    → (found ≡ some o) × MayAccess a o
unfolding accessible
accessible-MayAccess a none o h = absurd (ground arith)
accessible-MayAccess a (some p) o h = elim (Bool-cases (can_access_order (some a) (some p))) [
  | inl may ↦
      let same : p ≡ o = ground arith in
      (ap some same, subst (MayAccess a) same ((can_access_order-MayAccess a p).0 may))
  | inr never ↦ absurd (ground arith)
]

require_order_access-MayAccess :
    (get_order : Text → Option Owned) (a : Auth) (id : Text) (o : Owned)
    → require_order_access get_order (some a) id ≡ some o
    → (get_order id ≡ some o) × MayAccess a o
unfolding require_order_access
require_order_access-MayAccess get_order a id o h = elim (Bool-cases (is_uuid id)) [
  | inl shaped ↦ accessible-MayAccess a (get_order id) o (ground arith)
  | inr bad ↦ absurd (ground arith)
]

admit-let_in :
    (b a : Auth) (found : Option Owned) (o : Owned)
    → admit b found ≡ let_in a o
    → (b ≡ a) × (found ≡ some o)
unfolding admit
admit-let_in b a none o h = absurd (ground arith)
admit-let_in b a (some p) o h = (ground arith, ground arith)

-- The route of an order lets in only a session that the request has, with the account that its role
-- needs, and only to an order that there is and that this session may access.
pub order_route-MayAccess :
    (get_order : Text → Option Owned) (session : Option Session) (id : Text) (a : Auth) (o : Owned)
    → order_route get_order session id ≡ let_in a o
    → (s : Session) × (session ≡ some s)
      × (s.auth ≡ a)
      × (has_identity a ≡ true)
      × (get_order id ≡ some o)
      × MayAccess a o
unfolding order_route
order_route-MayAccess get_order session id a o h =
    elim (Option-cases (require_role (customer ∷ driver ∷ operator ∷ []) session)) [
      | inl out ↦ absurd (ground arith)
      | inr (b, signed_in) ↦
          let (same, found) =
            admit-let_in b a (require_order_access get_order (some b) id) o (ground arith) in
          let (s, there, who, named) =
            require_role-in (customer ∷ driver ∷ operator ∷ []) session a
              (signed_in ∙ ap some same) in
          let (known, may) =
            require_order_access-MayAccess get_order a id o
              (subst (λ c. require_order_access get_order (some c) id ≡ some o) same found) in
          (s, there, who, named, known, may)
    ]
