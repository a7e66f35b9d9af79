-- ===== src/Auth/Links/WayIn.antt =====
-- No account is left without a way to sign in.
use ghost_merchant.Base.{
  ℕ, ◌+◌, ◌≡◌, ◌≢◌, refl, sym, subst, leb, Bool, true, ◌||◌, Option, none, some, is_some, List, [],
  ◌∷◌, All, ◌==◌, Bool-cases, inl, inr, arith,
}
use ghost_merchant.Base.Text.{Text}
use ghost_merchant.Base.Table.{update_by}
use ghost_merchant.Auth.Otp.{max_attempts}
use ghost_merchant.Auth.Challenges.{EmailChallenge, User, Accounts, user_by_email, same_text}
use ghost_merchant.Auth.Links.{
  find_link, delete_link, find_user, Linked, with_email, without_email, take_email, try_link,
  link_row, report_link, verify_email_link, has_phone, remove_email,
}

-- A phone number or an email.
abbrev pub has_way_in : User → Bool
has_way_in u = is_some u.phone_number || is_some u.email

unfoldable pub HasWayIn : List User → Type 0
HasWayIn = All λ u. has_way_in u ≡ true

-- A row that is found before is not changed: the update of the first row of a key keeps `All`.
update_user-HasWayIn :
    (id : ℕ) (f : User → User) (us : List User)
    → ((u : User) → find_user id us ≡ some u → has_way_in u ≡ true → has_way_in (f u) ≡ true)
    → HasWayIn us
    → HasWayIn (update_by (λ u. u.id) id f us)
unfolding HasWayIn
update_user-HasWayIn id f [] keeps all = all
update_user-HasWayIn id f (u ∷ us) keeps (first, all) = elim (Bool-cases (u.id == id)) [
  | inl same ↦ rw same (keeps u (ground arith) first, all)
  | inr other ↦
      rw other (first, update_user-HasWayIn id f us (λ x found. keeps x (ground arith)) all)
]

with_email-HasWayIn :
    (id now : ℕ) (email : Text) (us : List User)
    → HasWayIn us
    → HasWayIn (update_by (λ u. u.id) id (with_email email now) us)
with_email-HasWayIn id now email us all =
    update_user-HasWayIn id (with_email email now) us (λ u found way. ground arith) all

without_email-HasWayIn :
    (id : ℕ) (us : List User)
    → has_phone (find_user id us) ≡ true
    → HasWayIn us
    → HasWayIn (update_by (λ u. u.id) id without_email us)
without_email-HasWayIn id us phone all =
    update_user-HasWayIn id without_email us (λ u found way. ground arith) all

-- Ids are unique.
unfoldable pub Distinct : List User → Type 0
Distinct [] = Unit
Distinct (u ∷ us) = All (λ x. u.id ≢ x.id) us × Distinct us

user_by_email-All :
    (P : User → Type 0) (email : Text) (us : List User) (o : User)
    → user_by_email email us ≡ some o
    → All P us
    → P o
user_by_email-All P email [] o h all = absurd (ground arith)
user_by_email-All P email (u ∷ us) o h (first, all) = elim (Bool-cases (same_text email u.email)) [
  | inl same ↦ subst P (ground arith) first
  | inr other ↦ user_by_email-All P email us o (ground arith) all
]

user_by_email-find :
    (email : Text) (us : List User) (o : User)
    → Distinct us
    → user_by_email email us ≡ some o
    → find_user o.id us ≡ some o
unfolding Distinct
user_by_email-find email [] o d h = ground arith
user_by_email-find email (u ∷ us) o (first, d) h = elim (Bool-cases (same_text email u.email)) [
  | inl same ↦ ground arith
  | inr other ↦
      let away = user_by_email-All (λ x. u.id ≢ x.id) email us o (ground arith) first in
      ground (arith, away, user_by_email-find email us o d)
]

take_email-HasWayIn :
    (now id : ℕ) (email : Text) (o : Option User) (a : Accounts)
    → ((u : User) → o ≡ some u → find_user u.id a.users ≡ some u)
    → HasWayIn a.users
    → HasWayIn (take_email now id email o a).1.users
unfolding take_email
take_email-HasWayIn now id email none a own all = with_email-HasWayIn id now email a.users all
take_email-HasWayIn now id email (some u) a own all = elim (Bool-cases (u.id == id)) [
  | inl same ↦ rw same (with_email-HasWayIn id now email a.users all)
  | inr other ↦ elim (Bool-cases (is_some u.phone_number)) [
    | inl phone ↦
        rw (other, phone)
          (with_email-HasWayIn id now email (update_by (λ x. x.id) u.id without_email a.users)
            (without_email-HasWayIn u.id a.users (ground (arith, own u refl)) all))
    | inr without ↦ rw (other, without) all
  ]
]

try_link-HasWayIn :
    (verify_code : Text → Text → Bool) (now id : ℕ) (code : Text) (c : EmailChallenge)
    (a : Accounts)
    → Distinct a.users
    → HasWayIn a.users
    → HasWayIn (try_link verify_code now id code c a).1.users
unfolding try_link
try_link-HasWayIn verify_code now id code c a d all =
    elim (Bool-cases (verify_code code c.code_hash)) [
      | inl right ↦ rw right (
          take_email-HasWayIn now id c.email (user_by_email c.email a.users) (delete_link id a)
            (λ u found. user_by_email-find c.email a.users u d found) all)
      | inr miss ↦ elim (Bool-cases (leb max_attempts (c.attempts + 1))) [
        | inl last ↦ rw (miss, last) all
        | inr more ↦ rw (miss, more) all
      ]
    ]

link_row-HasWayIn :
    (verify_code : Text → Text → Bool) (now id : ℕ) (code : Text) (o : Option EmailChallenge)
    (a : Accounts)
    → Distinct a.users
    → HasWayIn a.users
    → HasWayIn (link_row verify_code now id code o a).1.users
unfolding link_row
link_row-HasWayIn verify_code now id code none a d all = all
link_row-HasWayIn verify_code now id code (some c) a d all =
    elim (Bool-cases (leb c.expires_at now || leb max_attempts c.attempts)) [
      | inl dead ↦ rw dead all
      | inr live ↦ rw live (try_link-HasWayIn verify_code now id code c a d all)
    ]

report_link-users : (o : Linked × Accounts) → (report_link o).1 ≡ o.1
unfolding report_link
report_link-users (Linked.linked email, a) = refl
report_link-users (Linked.refused, a) = refl
report_link-users (Linked.taken, a) = refl

-- Where ids are unique and every account has a phone number or an email, that is so after the
-- confirmation of an email too: the account that had the email gives it up only with a number.
pub verify_email_link-HasWayIn :
    (verify_code : Text → Text → Bool) (now id : ℕ) (code : Text) (a : Accounts)
    → Distinct a.users
    → HasWayIn a.users
    → HasWayIn (verify_email_link verify_code now id code a).1.users
unfolding verify_email_link
verify_email_link-HasWayIn verify_code now id code a d all =
    let ran = link_row verify_code now id code (find_link id a.email_challenges) a in
    subst (λ x. HasWayIn x.users) (sym (report_link-users ran))
      (link_row-HasWayIn verify_code now id code (find_link id a.email_challenges) a d all)

-- Where every account has a phone number or an email, that is so after an email was taken off.
pub remove_email-HasWayIn :
    (id : ℕ) (a : Accounts) → HasWayIn a.users → HasWayIn (remove_email id a).1.users
unfolding remove_email
remove_email-HasWayIn id a all = elim (Bool-cases (has_phone (find_user id a.users))) [
  | inl phone ↦ rw phone (without_email-HasWayIn id a.users phone all)
  | inr without ↦ rw without all
]
