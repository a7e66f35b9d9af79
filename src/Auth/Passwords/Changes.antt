-- ===== src/Auth/Passwords/Changes.antt =====
-- Who may change a password.
use ghost_merchant.Base.{
  ℕ, ◌≡◌, ◌≢◌, ◌<◌, ◌⊎◌, refl, true, false, not, ◌&&◌, Option, none, some, [], ◌∷◌, arith,
  Option-cases, Bool-cases, inl, inr,
}
use ghost_merchant.Base.Table.{find_by-update_by}
use ghost_merchant.Base.Text.{Text}
use ghost_merchant.Db.Tx.{Error}
use ghost_merchant.Auth.Challenges.{User, Accounts}
use ghost_merchant.Auth.Links.{find_user}
use ghost_merchant.Auth.Passwords.{
  Secrets, set_password, set_for, password_problem, with_password, is_hash, hash_or,
  in_reset_window,
}

-- Why an account may set a password now: it has none, a code opened a window that has not run out,
-- or the current password was given.
pub data MaySet (s : Secrets) (now : ℕ) (current : Text) (u : User) : Type 0 where
  unset : (u.password_hash ≡ none) ⊎ (u.password_hash ≡ some []) → MaySet s now current u
  window : (until : ℕ) → u.password_reset_until ≡ some until → now < until → MaySet s now current u
  knows :
      (h : Text)
      → u.password_hash ≡ some h
      → s.verify_secret current h ≡ true
      → MaySet s now current u

-- A change that went through.
pub record Changed (s : Secrets) (now id : ℕ) (current password : Text) (a a' : Accounts)
    : Type 0 where
  pub user : User
  pub email : Text
  pub found : find_user id a.users ≡ some user
  pub has_email : user.email ≡ some email
  pub sound : password_problem s.to_lower password email ≡ none
  pub allowed : MaySet s now current user
  pub row :
      find_user id a'.users
      ≡ some (record user {
        password_hash = some (s.hash_secret password);
        password_reset_until = none;
      })
  pub others : (j : ℕ) → j ≢ id → find_user j a'.users ≡ find_user j a.users

open_window :
    (s : Secrets) (now : ℕ) (current : Text) (u : User) (until : Option ℕ)
    → u.password_reset_until ≡ until
    → in_reset_window until now ≡ true
    → MaySet s now current u
open_window s now current u none e h = absurd (ground arith)
open_window s now current u (some t) e h = window t e (ground arith)

may_set :
    (s : Secrets) (now : ℕ) (current : Text) (u : User) (hash : Option Text)
    → u.password_hash ≡ hash
    → (is_hash hash
        && not (in_reset_window u.password_reset_until now)
        && not (s.verify_secret current (hash_or hash [])))
      ≡ false
    → MaySet s now current u
may_set s now current u none e h = unset (inl e)
may_set s now current u (some []) e h = unset (inr e)
may_set s now current u (some (c ∷ k)) e h =
    elim (Bool-cases (in_reset_window u.password_reset_until now)) [
      | inl still_open ↦ open_window s now current u u.password_reset_until refl still_open
      | inr shut ↦ knows (c ∷ k) e (ground arith)
    ]

-- What a call did: the change, or nothing.
pub Outcome : Secrets → ℕ → ℕ → Text → Text → Accounts → Option Error × Accounts → Type 0
Outcome s now id current password a (none, a') = Changed s now id current password a a'
Outcome s now id current password a (some e, a') = a' ≡ a

set_password-changes :
    (s : Secrets) (now id : ℕ) (current password : Text) (a a' : Accounts)
    → set_password s now id current password a ≡ (none, a')
    → Changed s now id current password a a'
unfolding set_password set_for
set_password-changes s now id current password a a' h = elim (Option-cases (find_user id a.users)) [
  | inl missing ↦ absurd (ground arith)
  | inr (u, found) ↦ elim (Option-cases u.email) [
    | inl without ↦ absurd (ground arith)
    | inr (email, has) ↦ record {
      user = u;
      email = email;
      found = found;
      has_email = has;
      sound = ground arith;
      allowed = may_set s now current u u.password_hash refl (ground arith);
      row = ground (
        arith,
        find_by-update_by (λ x. x.id) id id (with_password s password) a.users (λ x. refl),
      );
      others = λ j away. ground (
        arith,
        find_by-update_by (λ x. x.id) j id (with_password s password) a.users (λ x. refl),
      );
    }
  ]
]

set_password-keeps :
    (s : Secrets) (now id : ℕ) (current password : Text) (a a' : Accounts) (e : Error)
    → set_password s now id current password a ≡ (some e, a')
    → a' ≡ a
unfolding set_password set_for
set_password-keeps s now id current password a a' e h = ground arith

-- A password changes only for an account with an email, to one that the rules accept, and where the
-- account has none, a code opened a window that has not run out, or the current one was given;
-- then the new one is stored, the window is closed and no other account changes. A call that is
-- refused changes nothing.
pub set_password-Outcome :
    (s : Secrets) (now id : ℕ) (current password : Text) (a : Accounts)
    → Outcome s now id current password a (set_password s now id current password a)
unfolding Outcome
set_password-Outcome s now id current password a =
    told (set_password s now id current password a) refl
  where
    told :
        (p : Option Error × Accounts)
        → set_password s now id current password a ≡ p
        → Outcome s now id current password a p
    told (none, a') h = set_password-changes s now id current password a a' h
    told (some e, a') h = set_password-keeps s now id current password a a' e h
