-- ===== src/Middleware/Tests.antt =====
-- A limit of two a minute, a token of a minute and the route of an order.
use ghost_merchant.Base.{◌≡◌, ◌≤◌, refl, true, Option, none, some, [], ◌∷◌, length, arith}
use Prim.{tt}
use ghost_merchant.Base.Text.{Text, text, text_eq}
use ghost_merchant.Domain.Access.{Auth, Owned, driver, MayAccess, can_access_order}
use ghost_merchant.Domain.Ids.{is_uuid}
use ghost_merchant.Middleware.Session.{
  Session, sign_token, verify_token, has_identity, require_role, accessible, require_order_access,
  admit, order_route,
}
use ghost_merchant.Middleware.Session.Tokens.{
  issued, verify_token-sign_token, order_route-MayAccess,
}
use ghost_merchant.Middleware.RateLimit.{Buckets, hits, consume, sliding_window}
use ghost_merchant.Middleware.RateLimit.Window.{Ascending, consume-sliding_window, consume_bounded}

abbrev buckets : Buckets
buckets = ([], 1000 ∷ 50000 ∷ []) ∷ []

consume-sliding_window_example :
    ((consume [] 60000 2 61000 buckets).0, hits [] (consume [] 60000 2 61000 buckets).1)
    ≡ sliding_window 61000 60000 2 (hits [] buckets)
unfolding hits text_eq Ascending
consume-sliding_window_example =
    consume-sliding_window [] 60000 2 61000 buckets ((omega arith, tt), (tt, tt))
      (omega arith, (omega arith, tt)) (omega arith)

consume_bounded_example : length (hits [] (consume [] 60000 2 61000 buckets).1) ≤ 2
unfolding hits text_eq
consume_bounded_example = consume_bounded [] 60000 2 61000 buckets (omega arith)

abbrev rider : Auth
rider = record { role = driver; uid = none; id = some (49 ∷ []) }

-- A server that knows one session, writes it as "1" and signs with "2".
abbrev written : Session → Text
written s = 49 ∷ []

abbrev read : Text → Option Session
read s = some (issued 5000 rider 60)

verify_token-sign_token_example :
    verify_token read (λ s. 50 ∷ []) 65999 (sign_token written (λ s. 50 ∷ []) 5000 rider 60)
    ≡ some (issued 5000 rider 60)
verify_token-sign_token_example =
    verify_token-sign_token written read (λ s. 50 ∷ []) 5000 65999 rider 60 refl refl (ground arith)
      refl (ground arith) (omega arith)

abbrev owned : Owned
owned = record { user_id = some 4; driver_id = some (49 ∷ []) }

abbrev owned_id : Text
owned_id = text "00000000-0000-4000-8000-000000000007"

order_route-MayAccess_example :
    (s : Session) × (some (issued 5000 rider 60) ≡ some s)
    × (s.auth ≡ rider)
    × (has_identity rider ≡ true)
    × (some owned ≡ some owned)
    × MayAccess rider owned
unfolding order_route require_role require_order_access accessible admit has_identity is_uuid
    can_access_order text text_eq
order_route-MayAccess_example =
    order_route-MayAccess (λ k. some owned) (some (issued 5000 rider 60)) owned_id rider owned refl
