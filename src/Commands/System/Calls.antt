-- ===== src/Commands/System/Calls.antt =====
-- Every call is a sequence of the five steps.
use ghost_merchant.Base.{
  ℕ, ◌≡◌, refl, sym, subst, Option, none, some, List, [], ◌∷◌, Option-cases, inl, inr,
}
use ghost_merchant.Base.Text.{Text}
use ghost_merchant.Domain.StateMachine.{failed_refund}
use ghost_merchant.Domain.Rotation.{Candidate}
use ghost_merchant.Db.{Db}
use ghost_merchant.Db.Tx.{
  Tx, Result, ok, err, with_transaction, with_critical_transaction, commit, commit_critical,
}
use ghost_merchant.Db.Rows.{order_of}
use ghost_merchant.Commands.Orders.{transition_order}
use ghost_merchant.Commands.Orders.Transition.{transition_order-Transits, transition_order-refuses}
use ghost_merchant.Commands.Dispatch.{dispatch_order, count_one, dispatch_each, dispatch_waiting}
use ghost_merchant.Commands.Dispatch.Assign.{Dispatches, dispatch_order-cases}
use ghost_merchant.Commands.Payments.{confirm_body_tx, confirm_checked}
use ghost_merchant.Commands.Payments.Confirmation.{confirm_body_tx-Halves}
use ghost_merchant.Commands.System.Steps.{
  paid, sent, moves, Steps, stay, Steps-of_Does, Steps-trans,
}

-- The body of a transaction goes by steps, where it goes through.
abbrev pub Walks : {A : Type 0} → Tx A → Type 0
Walks {A} m = (db db' : Db) (a : A) → m db ≡ ok (a, db') → Steps db db'

commit-Steps :
    {A : Type 0} (r : Result (A × Db)) (db : Db)
    → ((a : A) (db' : Db) → r ≡ ok (a, db') → Steps db db')
    → Steps db (commit db r).1
commit-Steps (ok (a, db')) db h = h a db' refl
commit-Steps (err e) db h = stay

commit_critical-Steps :
    {A : Type 0} (r : Result (A × Db)) (db : Db)
    → ((a : A) (db' : Db) → r ≡ ok (a, db') → Steps db db')
    → Steps db (commit_critical db r).1
commit_critical-Steps (ok (a, db')) db h = h a db' refl
commit_critical-Steps (err e) db h = stay

pub with_transaction-Steps :
    {A : Type 0} (m : Tx A) → Walks m → (db : Db) → Steps db (with_transaction m db).1
unfolding with_transaction
with_transaction-Steps m w db = commit-Steps (m db) db (λ a db' e. w db db' a e)

pub with_critical_transaction-Steps :
    {A : Type 0} (m : Tx A) → Walks m → (db : Db) → Steps db (with_critical_transaction m db).1
unfolding with_critical_transaction
with_critical_transaction-Steps m w db = commit_critical-Steps (m db) db (λ a db' e. w db db' a e)

-- A dispatch, whoever it finds.
Dispatches-Steps :
    (now id : ℕ) (r : Option Candidate) (db db' : Db) → Dispatches now id r db db' → Steps db db'
Dispatches-Steps now id r db db' (inl (nobody, same)) = subst (Steps db) (sym same) stay
Dispatches-Steps now id r db db' (inr (d, before, is, found, a)) =
    Steps-of_Does (sent now id d before found a)

dispatch_order-Walks : (now id : ℕ) → Walks (dispatch_order now id)
dispatch_order-Walks now id db db' r e =
    Dispatches-Steps now id r db db' (dispatch_order-cases now id db db' r e)

count_one-db : (p : Result ℕ × Db) → (count_one p).1 ≡ p.1
count_one-db (ok n, db) = refl
count_one-db (err e, db) = refl

dispatch_each-Steps : (now : ℕ) (ids : List ℕ) (db : Db) → Steps db (dispatch_each now ids db).1
unfolding dispatch_each
dispatch_each-Steps now [] db = stay
dispatch_each-Steps now (id ∷ ids) db =
    after (with_critical_transaction (dispatch_order now id) db)
      (with_critical_transaction-Steps (dispatch_order now id) (dispatch_order-Walks now id) db)
      (dispatch_each-Steps now ids)
  where
    after :
        (p : Result (Option Candidate) × Db)
        → Steps db p.1
        → ((db' : Db) → Steps db' (dispatch_each now ids db').1)
        → let q : Result ℕ × Db = elim p.0 [
          | err e ↦ (err e, p.1)
          | ok none ↦ (ok 0, p.1)
          | ok (some d) ↦ count_one (dispatch_each now ids p.1)
        ] in
          Steps db q.1
    after (err e, db') h rest = h
    after (ok none, db') h rest = h
    after (ok (some d), db') h rest =
        subst (Steps db) (sym (count_one-db (dispatch_each now ids db'))) (Steps-trans h (rest db'))

pub dispatch_waiting-Steps : (now : ℕ) (db : Db) → Steps db (dispatch_waiting now db).1
unfolding dispatch_waiting
dispatch_waiting-Steps now db = dispatch_each-Steps now _ db

pub transition_order-Walks :
    (now id : ℕ) (actor : Text) (why : Option Text)
    → Walks (transition_order now id failed_refund actor why)
transition_order-Walks now id actor why db db' o e = elim (Option-cases (order_of id db)) [
  | inl missing ↦
      absurd (cc ((transition_order-refuses now id failed_refund actor why db).0 missing))
  | inr (before, found) ↦ Steps-of_Does (
      moves now id failed_refund actor why before found (λ e. cc) (λ e. cc)
        (transition_order-Transits now id failed_refund actor why db db' before o found e).0)
]

confirm_body_tx-Walks :
    (to_cents : Text → Option ℕ) (now id : ℕ) (ref : Text) (amount : Option Text) (actor : Text)
    → Walks (confirm_body_tx to_cents now id ref amount actor)
confirm_body_tx-Walks to_cents now id ref amount actor db db' o e =
    let (before, v) = confirm_body_tx-Halves to_cents now id ref amount actor o db db' e in
    Steps-trans
      (Steps-of_Does
        (paid now id ref actor before v.checks.found v.checks.pending v.checks.unused v.transits))
      (Dispatches-Steps now id v.driver v.between db' v.dispatches)

pub confirm_checked-Steps :
    (r : Result Text) (to_cents : Text → Option ℕ) (now id : ℕ) (amount : Option Text)
    (actor : Text) (db : Db)
    → Steps db (confirm_checked r to_cents now id amount actor db).1
unfolding confirm_checked
confirm_checked-Steps (err e) to_cents now id amount actor db = stay
confirm_checked-Steps (ok []) to_cents now id amount actor db = stay
confirm_checked-Steps (ok (c ∷ s)) to_cents now id amount actor db =
    with_critical_transaction-Steps (confirm_body_tx to_cents now id (c ∷ s) amount actor)
      (confirm_body_tx-Walks to_cents now id (c ∷ s) amount actor) db
