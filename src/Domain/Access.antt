-- ===== src/Domain/Access.antt =====
-- Who may see or touch an order (backend/src/domain/access.js).
use ghost_merchant.Base.{ℕ, ◌≡◌, ◌↔◌, Bool, true, false, Option, none, some, arith, ◌==◌}
use ghost_merchant.Base.Text.{Text, text, text_eq, text_eq_refl, text_eq-eq}

-- `auth.role`; `other` is any string that no case names
pub data Role : Type 0 where
  operator customer driver other : Role

-- The verified token. A `uid` that is no integer is `none`, and `id` is read as `String(id)`.
pub record Auth : Type 0 where
  pub role : Role
  pub uid : Option ℕ
  pub id : Option Text

-- The two columns of the order that the rule reads; `driver_id` as `String(driver_id)`.
pub record Owned : Type 0 where
  pub user_id : Option ℕ
  pub driver_id : Option Text

abbrev same_uid : Option ℕ → Option ℕ → Bool
same_uid (some a) (some b) = a == b
same_uid _ _ = false

abbrev same_id : Option Text → Option Text → Bool
same_id (some a) (some b) = text_eq a b
same_id _ _ = false

role_may : Role → Auth → Owned → Bool
role_may operator auth order = true
role_may customer auth order = same_uid auth.uid order.user_id
role_may driver auth order = same_id auth.id order.driver_id
role_may other auth order = false

-- `canAccessOrder`; a missing token or order is `none`
unfoldable pub can_access_order : Option Auth → Option Owned → Bool
unfolding role_may
can_access_order none order = false
can_access_order (some auth) none = false
can_access_order (some auth) (some order) = role_may auth.role auth order

-- `senderForRole`
unfoldable pub sender_for_role : Role → Option Text
sender_for_role customer = some (text "user")
sender_for_role driver = some (text "driver")
sender_for_role operator = some (text "operator")
sender_for_role other = none

-- The rule as it is stated in words: the desk sees every order, a customer the orders of their
-- own account, a driver those assigned to them. Both ids have to be there.
pub data MayAccess (auth : Auth) (order : Owned) : Type 0 where
  desk : auth.role ≡ operator → MayAccess auth order
  own :
      (u : ℕ)
      → auth.role ≡ customer
      → auth.uid ≡ some u
      → order.user_id ≡ some u
      → MayAccess auth order
  assigned :
      (d : Text)
      → auth.role ≡ driver
      → auth.id ≡ some d
      → order.driver_id ≡ some d
      → MayAccess auth order

own_of_uid :
    (auth : Auth) (order : Owned) (a b : Option ℕ)
    → auth.role ≡ customer
    → auth.uid ≡ a
    → order.user_id ≡ b
    → same_uid a b ≡ true
    → MayAccess auth order
own_of_uid auth order (some a) (some b) r ea eb h = own a r ea (ground arith)
own_of_uid auth order (some a) none r ea eb h = cc
own_of_uid auth order none b r ea eb h = cc

assigned_of_id :
    (auth : Auth) (order : Owned) (a b : Option Text)
    → auth.role ≡ driver
    → auth.id ≡ a
    → order.driver_id ≡ b
    → same_id a b ≡ true
    → MayAccess auth order
assigned_of_id auth order (some a) (some b) r ea eb h = assigned a r ea (cc (text_eq-eq a b h))
assigned_of_id auth order (some a) none r ea eb h = cc
assigned_of_id auth order none b r ea eb h = cc

MayAccess-of_role :
    (r : Role) (auth : Auth) (order : Owned)
    → auth.role ≡ r
    → role_may r auth order ≡ true
    → MayAccess auth order
unfolding role_may
MayAccess-of_role operator auth order e h = desk e
MayAccess-of_role customer auth order e h =
    own_of_uid auth order auth.uid order.user_id e refl' refl'' h
  where
    refl' : auth.uid ≡ auth.uid
    refl' = cc

    refl'' : order.user_id ≡ order.user_id
    refl'' = cc
MayAccess-of_role driver auth order e h =
    assigned_of_id auth order auth.id order.driver_id e (cc) (cc) h
MayAccess-of_role other auth order e h = cc

role_of_MayAccess :
    {auth : Auth} {order : Owned} → MayAccess auth order → role_may auth.role auth order ≡ true
unfolding role_may
role_of_MayAccess (desk e) = ground arith
role_of_MayAccess (own u e a b) = ground arith
role_of_MayAccess (assigned d e a b) = ground (arith, text_eq_refl d)

-- The function decides the rule: it answers yes to exactly the orders that the rule grants.
pub can_access_order-MayAccess :
    (auth : Auth) (order : Owned)
    → (can_access_order (some auth) (some order) ≡ true) ↔ MayAccess auth order
unfolding can_access_order
can_access_order-MayAccess auth order =
    (MayAccess-of_role auth.role auth order (cc), role_of_MayAccess)
