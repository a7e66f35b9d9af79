-- ===== src/Commands/Orders/Debt.antt =====
-- A paid order that fails leaves a debt on record.
use ghost_merchant.Base.{
  ℕ, ◌<◌, ◌≡◌, refl, ◌∙◌, sym, true, Option, none, some, List, [], ◌∷◌, ◌++◌, arith, Option-cases,
  inl, inr, Bool-cases,
}
use ghost_merchant.Base.Text.{Text}
use ghost_merchant.Domain.StateMachine.{failed_refund, can_transition}
use ghost_merchant.Db.{Db, Order, Refund}
use ghost_merchant.Db.Tx.{ok, ◌>>◌, pure, >>=-eq-ok}
use ghost_merchant.Db.Rows.{order_of, find_open, is_owed, paid_total}
use ghost_merchant.Commands.Orders.{
  transition_order, auto_respond, refund_if_failed, open_refund_if_owed, create_refund, new_refund,
}
use ghost_merchant.Commands.Orders.Transition.{
  auto_respond-refunds, relabelled, moved, transition_order_lem, transition_order-refuses,
}

find_open-append :
    (id : ℕ) (rs : List Refund) (r : Refund)
    → find_open id rs ≡ none
    → r.order_id ≡ id
    → is_owed r.status ≡ true
    → find_open id (rs ++ r ∷ []) ≡ some r
find_open-append id [] r h e o = ground arith
find_open-append id (x ∷ rs) r h e o = ground (arith, find_open-append id rs r)

-- The open refund of `id` in `db'`, by what was open and paid in `db`.
abbrev Covers : ℕ → Db → Db → Type 0
Covers id db db' =
    (r : Refund) × (find_open id db'.refunds ≡ some r)
    × (find_open id db.refunds ≡ none → r.amount ≡ paid_total id db.payments)

create_refund-Covers :
    (id : ℕ) (why : Option Text) (actor : Text) (db db' : Db) (r : Option Refund)
    → find_open id db.refunds ≡ none
    → create_refund id (paid_total id db.payments) why actor db ≡ ok (r, db')
    → Covers id db db'
unfolding create_refund
create_refund-Covers id why actor db db' r h e =
    let row = new_refund id (paid_total id db.payments) why actor db in
    (row, ground (arith, find_open-append id db.refunds row h refl refl), λ _. refl)

open_refund_if_owed-Covers :
    (id : ℕ) (why : Option Text) (actor : Text) (db db' : Db) (r : Option Refund)
    → 0 < paid_total id db.payments
    → open_refund_if_owed id why actor db ≡ ok (r, db')
    → Covers id db db'
unfolding open_refund_if_owed
open_refund_if_owed-Covers id why actor db db' r p e =
    elim (Option-cases (find_open id db.refunds)) [
      | inl none_open ↦ create_refund-Covers id why actor db db' r none_open (ground arith)
      | inr (x, is_open) ↦ (x, ground arith, λ n. cc)
    ]

-- the last steps of a failing transition
fail_tail-Covers :
    (now id : ℕ) (why : Option Text) (actor : Text) (db db' : Db) (a o : Order)
    → 0 < paid_total id db.payments
    → (auto_respond now id failed_refund >> (refund_if_failed id failed_refund why actor >> pure a))
        db
      ≡ ok (o, db')
    → Covers id db db'
unfolding refund_if_failed
fail_tail-Covers now id why actor db db' a o p h =
    let (u, db₁, first, rest) =
      >>=-eq-ok (auto_respond now id failed_refund)
        (λ _. refund_if_failed id failed_refund why actor >> pure a) db h in
    let (v, db₂, second, last) =
      >>=-eq-ok (refund_if_failed id failed_refund why actor) (λ _. pure a) db₁ rest in
    let (r, db₃, third, end) =
      >>=-eq-ok (open_refund_if_owed id why actor) (λ _. pure tt) db₁ second in
    let same = auto_respond-refunds now id failed_refund db db₁ u first in
    let (x, there, amount) =
      open_refund_if_owed-Covers id why actor db₁ db₃ r (ground arith) third in
    (x, ground arith, λ n. ground (arith, amount))

-- After a paid order failed, a refund of it is open.
fail-Covers :
    (now id : ℕ) (actor : Text) (why : Option Text) (db db' : Db) (o : Order)
    → 0 < paid_total id db.payments
    → transition_order now id failed_refund actor why db ≡ ok (o, db')
    → (r : Refund) × (find_open id db'.refunds ≡ some r)
      × (find_open id db.refunds ≡ none → r.amount ≡ paid_total id db.payments)
fail-Covers now id actor why db db' o p h = elim (Option-cases (order_of id db)) [
  | inl missing ↦
      absurd (cc ((transition_order-refuses now id failed_refund actor why db).0 missing))
  | inr (before, found) ↦ elim (Bool-cases (can_transition before.status failed_refund)) [
    | inl legal ↦
        fail_tail-Covers now id why actor (relabelled now id failed_refund actor why before db) db'
          (moved now failed_refund before) o p
          (sym (transition_order_lem now id failed_refund actor why db before found ∙ rw legal) ∙ h)
    | inr illegal ↦
        absurd
          (cc ((transition_order-refuses now id failed_refund actor why db).1 before found illegal))
  ]
]

-- A paid order cannot fail without a debt on record: after a transition to FAILED_REFUND of an
-- order with matched payments and no open refund, its open refund is for the sum of the payments.
pub fail-owes :
    (now id : ℕ) (actor : Text) (why : Option Text) (db db' : Db) (o : Order)
    → 0 < paid_total id db.payments
    → find_open id db.refunds ≡ none
    → transition_order now id failed_refund actor why db ≡ ok (o, db')
    → (r : Refund) × (find_open id db'.refunds ≡ some r) × (r.amount ≡ paid_total id db.payments)
fail-owes now id actor why db db' o p unowed h =
    let (r, there, sum) = fail-Covers now id actor why db db' o p h in (r, there, sum unowed)
