-- ===== src/Staff/Setup/Claims.antt =====
-- What a claim that goes through rests on, and that its code is good once.
use ghost_merchant.Base.{ℕ, ◌<◌, ◌≡◌, true, false, Option, some, List, ◌==◌, any}
use ghost_merchant.Base.Table.{find_by}
use ghost_merchant.Base.Text.{Text}
use ghost_merchant.Auth.Passwords.{Secrets}
use ghost_merchant.Staff.{Role, driver, operator, Operator, DriverAccount, Invite, Staff}
use ghost_merchant.Staff.Rules.{accepted, validate_password, setup_max_attempts}
use ghost_merchant.Staff.Operators.{find_operator}
use ghost_merchant.Staff.Setup.{newest, with_pin, with_password}

abbrev find_account : ℕ → List DriverAccount → Option DriverAccount
find_account = find_by λ d. d.id

-- No invite has the id.
abbrev pub IsSpent : ℕ → Staff → Type 0
IsSpent id st = any (λ i. i.id == id) st.invites ≡ false

-- The account of the invite has the secret that was chosen.
abbrev pub HasSecret : Secrets → ℕ → Text → Role → Invite → Staff → Staff → Type 0
HasSecret s now secret driver i st st' =
    (d : DriverAccount) × (find_account i.account_id st.drivers ≡ some d)
    × (d.active ≡ true)
    × (find_account i.account_id st'.drivers ≡ some (with_pin s now secret d))
HasSecret s now secret operator i st st' =
    (o : Operator) × (find_operator i.account_id st.operators ≡ some o)
    × (o.active ≡ true)
    × (validate_password s.to_lower secret o.username ≡ accepted secret)
    × (find_operator i.account_id st'.operators ≡ some (with_password s secret o))

-- What a claim that goes through rests on: the newest invite of the number, in time and with a try
-- left, and its code.
pub record Claims (s : Secrets) (now : ℕ) (role : Role) (phone code secret : Text) (i : Invite)
    (st st' : Staff) : Type 0 where
  pub sent : newest role phone st.invites ≡ some i
  pub in_time : now < i.expires_at
  pub room : i.attempts < setup_max_attempts
  pub right : s.verify_secret code i.code_hash ≡ true
  pub secret_set : HasSecret s now secret role i st st'
  pub spent : IsSpent i.id st'
