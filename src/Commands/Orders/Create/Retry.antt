-- ===== src/Commands/Orders/Create/Retry.antt =====
-- To ask for an order again gives the order that is there.
use ghost_merchant.Base.{
  ℕ, ◌≡◌, refl, ◌∙◌, subst, Bool, false, Option, none, some, [], ◌∷◌, arith, Option-cases, inl, inr,
}
use ghost_merchant.Base.Int.{ℤ, pos, negsuc}
use ghost_merchant.Base.Table.{find_by-append}
use ghost_merchant.Base.Text.{Text}
use ghost_merchant.Db.{Db, Order}
use ghost_merchant.Db.Tx.{
  Result, ok, err, with_critical_transaction-ok, with_critical_transaction_run,
}
use ghost_merchant.Db.Rows.{order_of}
use ghost_merchant.Commands.Orders.Create.{
  NewOrder, Checked, check_request, check_contact, check_landmark, check_id, check_phone,
  insert_order, add_handoff, create_new, replay_or_create, order_id_of, create_checked,
  create_order,
}

-- The row of an order of an account.
record Stands (id user : ℕ) (o : Order) (db : Db) : Type 0 where
  row : order_of id db ≡ some o
  own : o.user_id ≡ user

insert_order-Stands :
    (now id : ℕ) (c : Checked) (r : NewOrder) (total : ℤ) (o : Order) (db db' : Db)
    → r.total_amount ≡ total
    → order_of id db ≡ none
    → insert_order now id c r db ≡ ok (o, db')
    → Stands id c.user_id o db'
unfolding insert_order
insert_order-Stands now id c r (negsuc n) o db db' t missing h = absurd (ground arith)
insert_order-Stands now id c r (pos n) o db db' t missing h = record {
  row = ground (arith, find_by-append (λ x. x.id) id db.orders (o ∷ []));
  own = ground arith;
}

create_new-Stands :
    (now drawn id : ℕ) (c : Checked) (r : NewOrder) (o : Order) (b : Bool) (db db' : Db)
    → order_of id db ≡ none
    → create_new now drawn id c r db ≡ ok ((o, b), db')
    → Stands id c.user_id o db'
unfolding create_new add_handoff insert_order
create_new-Stands now drawn id c r o b db db' missing h = record {
  row = ground (arith, find_by-append (λ x. x.id) id db.orders (o ∷ []));
  own = ground arith;
}

replay_or_create-Stands :
    (now drawn id : ℕ) (c : Checked) (r : NewOrder) (o : Order) (b : Bool) (db db' : Db)
    → replay_or_create now drawn id c r db ≡ ok ((o, b), db')
    → Stands id c.user_id o db'
unfolding replay_or_create
replay_or_create-Stands now drawn id c r o b db db' h = elim (Option-cases (order_of id db)) [
  | inl missing ↦ create_new-Stands now drawn id c r o b db db' missing (ground arith)
  | inr (existing, found) ↦ record { row = ground arith; own = ground arith }
]

replay_or_create-replays :
    (now drawn id : ℕ) (c : Checked) (r : NewOrder) (o : Order) (db : Db)
    → Stands id c.user_id o db
    → replay_or_create now drawn id c r db ≡ ok ((o, false), db)
unfolding replay_or_create
replay_or_create-replays now drawn id c r o db s = ground (arith, s.row, s.own)

check_phone-id :
    (user : ℕ) (landmark : Text) (id : Option Text) (raw : Text) (c : Checked)
    → check_phone user landmark id raw ≡ ok c
    → c.id ≡ id
unfolding check_phone
check_phone-id user landmark id raw c h = ground arith

check_id-id :
    (user : ℕ) (landmark : Text) (id : Option Text) (raw : Text) (c : Checked)
    → check_id user landmark id raw ≡ ok c
    → c.id ≡ id
unfolding check_id
check_id-id user landmark none raw c h = check_phone-id user landmark none raw c h
check_id-id user landmark (some s) raw c h =
    ground (arith, check_phone-id user landmark (some s) raw c)

check_landmark-id :
    (user : ℕ) (raw : Text) (landmark id : Option Text) (c : Checked)
    → check_landmark user raw landmark id ≡ ok c
    → c.id ≡ id
unfolding check_landmark
check_landmark-id user raw none id c h = ground arith
check_landmark-id user raw (some l) id c h = ground (arith, check_id-id user l id raw c)

check_contact-id :
    (user : ℕ) (raw landmark id : Option Text) (c : Checked)
    → check_contact user raw landmark id ≡ ok c
    → c.id ≡ id
unfolding check_contact
check_contact-id user none landmark id c h = ground arith
check_contact-id user (some []) landmark id c h = ground arith
check_contact-id user (some (x ∷ raw)) landmark id c h =
    check_landmark-id user (x ∷ raw) landmark id c h

check_request-id : (r : NewOrder) (c : Checked) → check_request r ≡ ok c → c.id ≡ r.id
unfolding check_request
check_request-id r c h = elim (Option-cases r.user_id) [
  | inl missing ↦ absurd (ground arith)
  | inr (user, there) ↦ check_contact-id user r.contact_phone r.landmark r.id c (ground arith)
]

create_checked-retry :
    (uuid : Text → ℕ) (now fresh drawn later fresh' drawn' : ℕ) (s : Text) (r : NewOrder)
    (x : Result Checked) (o : Order) (b : Bool) (db db' : Db)
    → ((c : Checked) → x ≡ ok c → c.id ≡ some s)
    → create_checked uuid now fresh drawn r x db ≡ (ok (o, b), db')
    → create_checked uuid later fresh' drawn' r x db' ≡ (ok (o, false), db')
unfolding create_checked order_id_of
create_checked-retry uuid now fresh drawn later fresh' drawn' s r (err e) o b db db' same h =
    absurd (ground arith)
create_checked-retry uuid now fresh drawn later fresh' drawn' s r (ok c) o b db db' same h =
    let i : ℕ = order_id_of uuid fresh c.id in
    let i' : ℕ = order_id_of uuid fresh' c.id in
    let ids : i ≡ i' = ground (arith, same c refl) in
    let ran = with_critical_transaction-ok (replay_or_create now drawn i c r) db (o, b) db' h in
    let stands = replay_or_create-Stands now drawn i c r o b db db' ran in
    with_critical_transaction_run (replay_or_create later drawn' i' c r) db' (o, false) db'
      (replay_or_create-replays later drawn' i' c r o db'
        (subst (λ k. Stands k c.user_id o db') ids stands))

-- A request with an id can be sent again: after a call that went through, the same request gives
-- the same order, says that it is not new, and changes nothing, whenever it comes and whatever is
-- drawn for it.
pub create_order-retry :
    (uuid : Text → ℕ) (now fresh drawn later fresh' drawn' : ℕ) (s : Text) (r : NewOrder)
    (o : Order) (b : Bool) (db db' : Db)
    → r.id ≡ some s
    → create_order uuid now fresh drawn r db ≡ (ok (o, b), db')
    → create_order uuid later fresh' drawn' r db' ≡ (ok (o, false), db')
unfolding create_order
create_order-retry uuid now fresh drawn later fresh' drawn' s r o b db db' named h =
    create_checked-retry uuid now fresh drawn later fresh' drawn' s r (check_request r) o b db db'
      (λ c e. check_request-id r c e ∙ named) h
