-- ===== src/Staff/Accounts/OneAccount.antt =====
-- A request gives one account.
use ghost_merchant.Base.{
  ℕ, ◌≡◌, refl, sym, ◌∙◌, subst, true, false, Option, some, is_some, arith, Option-cases, inl, inr,
}
use ghost_merchant.Base.Table.{find_by-update_by}
use ghost_merchant.Base.Text.{Text, trim}
use ghost_merchant.Db.Tx.{Result, ok, err, Error, Result-cases}
use ghost_merchant.Staff.{
  Role, driver, operator, AccessRequest, Staff, ◌>>=◌, ◌>>◌, pure, >>=-eq-ok, transaction-ok,
  transaction-err,
}
use ghost_merchant.Staff.Requests.{find_request}
use ghost_merchant.Staff.Accounts.{
  Draw, NewAccount, Fields, Created, email_or_null, phone_or_throw, issue_code, of_request,
  fields_of, create_driver, create_operator, create_account, mark_request, make_account,
  create_from, create_body, create_with, create_staff_account,
}

create_account-requests :
    (d : Draw) (username : Text) (by : Option Text) (role : Role) (name phone : Text)
    (email : Option Text) (st st' : Staff) (n : ℕ)
    → create_account d username by role name phone email st ≡ ok (n, st')
    → st'.requests ≡ st.requests
unfolding create_account create_driver create_operator
create_account-requests d username by driver name phone email st st' n h = ground arith
create_account-requests d username by operator name phone email st st' n h = ground arith

issue_code-requests :
    (d : Draw) (role : Role) (account : ℕ) (phone : Text) (by : Option Text) (st st' : Staff)
    (code : Text)
    → issue_code d role account phone by st ≡ ok (code, st')
    → st'.requests ≡ st.requests
unfolding issue_code
issue_code-requests d role account phone by st st' code h = ground arith

-- The row that an account came of.
abbrev marked : ℕ → Role → ℕ → AccessRequest → AccessRequest
marked now role account r = record r {
  account_created_at = some now;
  account_ref = some (role, account);
}

-- The request is there, and an account came of it.
abbrev HasAccount : ℕ → Staff → Type 0
HasAccount id st =
    (r : AccessRequest) × (find_request id st.requests ≡ some r)
    × (is_some r.account_created_at ≡ true)

make_account-HasAccount :
    (d : Draw) (a : NewAccount) (r : Fields) (role : Role) (phone : Text) (id : ℕ)
    (q : AccessRequest) (st st' : Staff) (c : Created)
    → a.request_id ≡ some (some id)
    → find_request id st.requests ≡ some q
    → make_account d a r role phone st ≡ ok (c, st')
    → HasAccount id st'
unfolding make_account mark_request
make_account-HasAccount d a r role phone id q st st' c asked there h =
    let (account, st₁, made, rest) =
      >>=-eq-ok (create_account d a.username a.created_by role (trim r.name) phone r.email)
        (λ account.
          (issue_code d role account phone a.created_by >>= λ code.
          (mark_request d.now a.request_id role account
            >> pure (record {
              role = role;
              account = account;
              phone = phone;
              email = r.email;
              code = code;
            }))))
        st h in
    let (code, st₂, issued, rest₁) =
      >>=-eq-ok (issue_code d role account phone a.created_by)
        (λ code.
          (mark_request d.now a.request_id role account
            >> pure (record {
              role = role;
              account = account;
              phone = phone;
              email = r.email;
              code = code;
            })))
        st₁ rest in
    let same : st₂.requests ≡ st.requests =
      issue_code-requests d role account phone a.created_by st₁ st₂ code issued
      ∙ create_account-requests d a.username a.created_by role (trim r.name) phone r.email st st₁
          account made in
    (
      marked d.now role account q,
      ground (
        arith,
        asked,
        there,
        same,
        find_by-update_by (λ x. x.id) id id (marked d.now role account) st₂.requests (λ x. refl),
      ),
      refl,
    )

create_from-made :
    (d : Draw) (a : NewAccount) (r : Fields) (st st' : Staff) (c : Created)
    → create_from d a r st ≡ ok (c, st')
    → (role : Role) × (phone : Text) × (make_account d a r role phone st ≡ ok (c, st'))
unfolding create_from
create_from-made d a r st st' c h = elim (Option-cases r.role) [
  | inl missing ↦ absurd (ground arith)
  | inr (role, is_role) ↦ elim (Result-cases (phone_or_throw r.phone)) [
    | inl (phone, good) ↦ (role, phone, ground arith)
    | inr (e, bad) ↦ absurd (ground arith)
  ]
]

fields_of-request :
    (a : NewAccount) (typed : Option Text) (id : ℕ) (st st' : Staff) (r : Fields)
    → fields_of a typed (some (some id)) st ≡ ok (r, st')
    → (st' ≡ st)
      × (q : AccessRequest) × (find_request id st.requests ≡ some q)
      × (is_some q.account_created_at ≡ false)
unfolding fields_of of_request
fields_of-request a typed id st st' r h = elim (Option-cases (find_request id st.requests)) [
  | inl missing ↦ absurd (ground arith)
  | inr (q, there) ↦ (ground arith, q, there, ground arith)
]

create_body-HasAccount :
    (d : Draw) (a : NewAccount) (typed : Option Text) (id : ℕ) (st st' : Staff) (c : Created)
    → a.request_id ≡ some (some id)
    → create_body d a typed st ≡ ok (c, st')
    → HasAccount id st'
unfolding create_body
create_body-HasAccount d a typed id st st' c asked h =
    let (r, st₁, read, rest) =
      >>=-eq-ok (fields_of a typed a.request_id) (λ r. create_from d a r) st h in
    let (same, q, there, free) =
      fields_of-request a typed id st st₁ r
        (subst (λ x. fields_of a typed x st ≡ ok (r, st₁)) asked read) in
    let (role, phone, made) = create_from-made d a r st₁ st' c rest in
    make_account-HasAccount d a r role phone id q st₁ st' c asked
      (subst (λ x. find_request id x.requests ≡ some q) (sym same) there) made

create_body-refused :
    (d : Draw) (a : NewAccount) (typed : Option Text) (id : ℕ) (st : Staff)
    → a.request_id ≡ some (some id)
    → HasAccount id st
    → (e : Error) × (create_body d a typed st ≡ err e)
unfolding create_body
create_body-refused d a typed id st asked (q, there, has) =
    elim (Result-cases (create_body d a typed st)) [
      | inr (e, refused) ↦ (e, refused)
      | inl ((c, st'), went) ↦
          let (r, st₁, read, rest) =
            >>=-eq-ok (fields_of a typed a.request_id) (λ r. create_from d a r) st went in
          let (same, x, there', free) =
            fields_of-request a typed id st st₁ r
              (subst (λ x. fields_of a typed x st ≡ ok (r, st₁)) asked read) in
          absurd (ground arith)
    ]

create_with-HasAccount :
    (d : Draw) (a : NewAccount) (typed : Result (Option Text)) (id : ℕ) (st st' : Staff)
    (c : Created)
    → a.request_id ≡ some (some id)
    → create_with d a typed st ≡ (ok c, st')
    → HasAccount id st'
unfolding create_with
create_with-HasAccount d a (err e) id st st' c asked h = absurd (ground arith)
create_with-HasAccount d a (ok typed) id st st' c asked h =
    create_body-HasAccount d a typed id st st' c asked
      (transaction-ok (create_body d a typed) st c st' h)

create_with-refused :
    (d : Draw) (a : NewAccount) (typed : Result (Option Text)) (id : ℕ) (st : Staff)
    → a.request_id ≡ some (some id)
    → HasAccount id st
    → (e : Error) × (create_with d a typed st ≡ (err e, st))
unfolding create_with
create_with-refused d a (err e) id st asked has = (e, refl)
create_with-refused d a (ok typed) id st asked has =
    let (e, refused) = create_body-refused d a typed id st asked has in
    (e, transaction-err (create_body d a typed) st e refused)

-- A request to be given an account gives one: once an account was created from it, to create
-- another from it is refused and changes nothing, whatever else is given.
pub create_staff_account_once :
    (d d' : Draw) (a a' : NewAccount) (id : ℕ) (st st' : Staff) (c : Created)
    → a.request_id ≡ some (some id)
    → a'.request_id ≡ some (some id)
    → create_staff_account d a st ≡ (ok c, st')
    → (e : Error) × (create_staff_account d' a' st' ≡ (err e, st'))
unfolding create_staff_account
create_staff_account_once d d' a a' id st st' c asked asked' h =
    create_with-refused d' a' (email_or_null d'.secrets.to_lower a'.email) id st' asked'
      (create_with-HasAccount d a (email_or_null d.secrets.to_lower a.email) id st st' c asked h)
