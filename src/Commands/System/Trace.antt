-- ===== src/Commands/System/Trace.antt =====
-- Every run of calls is a sequence of the five steps.
use ghost_merchant.Base.{
  ℕ, ◌≡◌, refl, ap, ◌∙◌, Bool, true, false, Option, none, some, List, [], ◌∷◌, arith, Option-cases,
  inl, inr, or_else, any,
}
use ghost_merchant.Base.Text.{Text, text, trim}
use ghost_merchant.Base.Table.{update_by, find_by-update_by}
use ghost_merchant.Domain.StateMachine.{failed_refund}
use ghost_merchant.Domain.Wallets.{Wallet}
use ghost_merchant.Db.{Db, Order, Refund, Step, delivery}
use ghost_merchant.Db.Tx.{Result, ok, err}
use ghost_merchant.Db.Rows.{order_of, find_order, find_proof}
use ghost_merchant.Commands.Orders.{insert_message, transition_order_alone, transition_order}
use ghost_merchant.Commands.Orders.Transition.{dues}
use ghost_merchant.Commands.Orders.Create.{
  NewOrder, Checked, check_request, insert_order, add_handoff, create_new, replay_or_create,
  order_id_of, create_checked, create_order,
}
use ghost_merchant.Commands.Dispatch.{active_orders}
use ghost_merchant.Commands.Payments.{
  claim_payment, claim_checked, claim_body_tx, or_null, wallet_id, confirm_payment,
  reference_or_throw, wallet_or_throw,
}
use ghost_merchant.Commands.Refunds.{
  find_refund, close_refund, update_refund, settle_with, waive_with, settle_refund, waive_refund,
  settlement, waiver,
}
use ghost_merchant.Commands.Proofs.Dispute.{
  mark_proof_reviewed, is_disputed, flag_dispute, dispute_tx, dispute_delivery,
}
use ghost_merchant.Commands.System.{
  Runtime, Call, create, post, photograph, claim, confirm, dispatch, fail, pick_up, deliver, review,
  dispute, settle, waive, perform, run,
}
use ghost_merchant.Commands.System.Steps.{
  still, born, Born, Steps, stay, Steps-of_Does, Steps-trans, Still, Still-of_tables,
}
use ghost_merchant.Commands.System.Calls.{
  Walks, with_transaction-Steps, with_critical_transaction-Steps, dispatch_waiting-Steps,
  confirm_checked-Steps, transition_order-Walks,
}
use ghost_merchant.Commands.System.Talk.{post_message-Steps, save_photo-Steps}
use ghost_merchant.Commands.System.Evidence.{confirm_pickup-Steps, confirm_delivery-Steps}

create_new-Born :
    (now drawn id : ℕ) (c : Checked) (r : NewOrder) (db db' : Db) (o : Order) (b : Bool)
    → order_of id db ≡ none
    → create_new now drawn id c r db ≡ ok ((o, b), db')
    → Born o (text "system") (some (text "order created")) db db'
unfolding create_new insert_order add_handoff
create_new-Born now drawn id c r db db' o b missing h = record {
  absent = ground arith;
  pending = ground arith;
  free = ground arith;
  orders = ground arith;
  order_events = ground arith;
  payments = ground arith;
  dues = ground arith;
}

create_new-Steps :
    (now drawn id : ℕ) (c : Checked) (r : NewOrder) (db db' : Db) (p : Order × Bool)
    → order_of id db ≡ none
    → create_new now drawn id c r db ≡ ok (p, db')
    → Steps db db'
create_new-Steps now drawn id c r db db' (o, b) missing h = Steps-of_Does (
    born o (text "system") (some (text "order created"))
      (create_new-Born now drawn id c r db db' o b missing h))

replay_or_create-Walks :
    (now drawn id : ℕ) (c : Checked) (r : NewOrder) → Walks (replay_or_create now drawn id c r)
unfolding replay_or_create
replay_or_create-Walks now drawn id c r db db' p h = elim (Option-cases (order_of id db)) [
  | inl missing ↦ create_new-Steps now drawn id c r db db' p missing (ground arith)
  | inr (there, found) ↦
      Steps-of_Does
        (still (Still-of_tables (ground arith) (ground arith) (ground arith) (ground arith)))
]

create_checked-Steps :
    (uuid : Text → ℕ) (now fresh drawn : ℕ) (r : NewOrder) (x : Result Checked) (db : Db)
    → Steps db (create_checked uuid now fresh drawn r x db).1
unfolding create_checked
create_checked-Steps uuid now fresh drawn r (err e) db = stay
create_checked-Steps uuid now fresh drawn r (ok c) db =
    with_critical_transaction-Steps (replay_or_create now drawn (order_id_of uuid fresh c.id) c r)
      (replay_or_create-Walks now drawn (order_id_of uuid fresh c.id) c r) db

-- A row that is closed stands for the same debt.
dues-update :
    (id : ℕ) (f : Refund → Refund) (rs : List Refund)
    → ((r : Refund) → ((f r).order_id ≡ r.order_id) × ((f r).amount ≡ r.amount))
    → dues (update_by (λ r. r.id) id f rs) ≡ dues rs
dues-update id f [] h = refl
dues-update id f (r ∷ rs) h = ground (arith, h r, dues-update id f rs h)

close_refund-Walks :
    (id : ℕ) (f : Refund → Refund)
    → ((r : Refund) → ((f r).order_id ≡ r.order_id) × ((f r).amount ≡ r.amount))
    → Walks (close_refund id f)
unfolding close_refund update_refund
close_refund-Walks id f keeps db db' r e = elim (Option-cases (find_refund id db.refunds)) [
  | inl missing ↦ absurd (ground arith)
  | inr (x, found) ↦ Steps-of_Does (
      still (
        Still-of_tables (ground arith) (ground arith) (ground arith)
          (ground (arith, dues-update x.id f db.refunds keeps))))
]

settle_with-Steps :
    (now id : ℕ) (ref : Text) (said : Option Text) (actor : Text) (db : Db)
    → Steps db (settle_with now id ref said actor db).1
unfolding settle_with
settle_with-Steps now id [] said actor db = stay
settle_with-Steps now id (c ∷ s) said actor db =
    with_critical_transaction-Steps (close_refund id (settlement now (c ∷ s) said actor))
      (close_refund-Walks id (settlement now (c ∷ s) said actor) (λ r. (refl, refl))) db

waive_with-Steps :
    (now id : ℕ) (reason : Text) (actor : Text) (db : Db)
    → Steps db (waive_with now id reason actor db).1
unfolding waive_with
waive_with-Steps now id [] actor db = stay
waive_with-Steps now id (c ∷ s) actor db =
    with_critical_transaction-Steps (close_refund id (waiver now (c ∷ s) actor))
      (close_refund-Walks id (waiver now (c ∷ s) actor) (λ r. (refl, refl))) db

-- The row after a claim.
abbrev claimed : ℕ → Text → Option Wallet → Order → Order
claimed now ref wallet o = record o {
  payment_claimed_at = some now;
  payment_claim_ref = or_null ref;
  payment_claim_wallet = wallet_id wallet;
}

active_orders-claimed :
    (now id : ℕ) (ref : Text) (wallet : Option Wallet) (d : ℕ) (os : List Order)
    → active_orders d (update_by (λ r. r.id) id (claimed now ref wallet) os) ≡ active_orders d os
active_orders-claimed now id ref wallet d [] = refl
active_orders-claimed now id ref wallet d (o ∷ os) =
    ground (arith, active_orders-claimed now id ref wallet d os)

-- What a claim leaves of the tables that matter here.
record Claims (now id : ℕ) (ref : Text) (wallet : Option Wallet) (db db' : Db) : Type 0 where
  orders : db'.orders ≡ update_by (λ r. r.id) id (claimed now ref wallet) db.orders
  order_events : db'.order_events ≡ db.order_events
  payments : db'.payments ≡ db.payments
  dues : dues db'.refunds ≡ dues db.refunds

claim_body_tx-Claims :
    (now id : ℕ) (ref : Text) (wallet : Option Wallet) (db db' : Db) (o : Order)
    → claim_body_tx now id ref wallet db ≡ ok (o, db')
    → Claims now id ref wallet db db'
unfolding claim_body_tx insert_message
claim_body_tx-Claims now id ref wallet db db' o h = elim (Option-cases (order_of id db)) [
  | inl missing ↦ absurd (ground arith)
  | inr (before, found) ↦ record {
    orders = ground arith;
    order_events = ground arith;
    payments = ground arith;
    dues = ground arith;
  }
]

Claims-Still :
    (now id : ℕ) (ref : Text) (wallet : Option Wallet) (db db' : Db)
    → Claims now id ref wallet db db'
    → Still db db'
Claims-Still now id ref wallet db db' c = record {
  briefs = λ j. ground (
    arith,
    ap (find_order j) c.orders,
    find_by-update_by (λ r. r.id) j id (claimed now ref wallet) db.orders (λ o. refl),
  );
  loads = λ d. ap (active_orders d) c.orders ∙ active_orders-claimed now id ref wallet d db.orders;
  order_events = c.order_events;
  payments = c.payments;
  dues = c.dues;
}

claim_checked-Steps :
    (r : Result Text) (w : Result (Option Wallet)) (now id : ℕ) (db : Db)
    → Steps db (claim_checked r w now id db).1
unfolding claim_checked
claim_checked-Steps (err e) w now id db = stay
claim_checked-Steps (ok ref) (err e) now id db = stay
claim_checked-Steps (ok ref) (ok wallet) now id db =
    with_transaction-Steps (claim_body_tx now id ref wallet)
      (λ a b o e. Steps-of_Does (
        still
          (Claims-Still now id ref wallet a b (claim_body_tx-Claims now id ref wallet a b o e))))
      db

mark_proof_reviewed-Steps :
    (now id : ℕ) (step : Step) (actor : Text) (db : Db)
    → Steps db (mark_proof_reviewed now id step actor db).1
unfolding mark_proof_reviewed
mark_proof_reviewed-Steps now id step actor db =
    Steps-of_Does
      (still (Still-of_tables (ground arith) (ground arith) (ground arith) (ground arith)))

flag_dispute-Still :
    (now id : ℕ) (said : Option Text) (b : Bool) (db db' : Db) (u : Unit {0})
    → flag_dispute now id said b db ≡ ok (u, db')
    → Still db db'
unfolding flag_dispute insert_message
flag_dispute-Still now id said true db db' u e =
    Still-of_tables (ground arith) (ground arith) (ground arith) (ground arith)
flag_dispute-Still now id said false db db' u e =
    Still-of_tables (ground arith) (ground arith) (ground arith) (ground arith)

dispute_tx-Walks : (now id : ℕ) (said : Option Text) → Walks (dispute_tx now id said)
unfolding dispute_tx
dispute_tx-Walks now id said db db' u e = elim (Option-cases (find_proof id delivery db.proofs)) [
  | inl missing ↦ absurd (ground arith)
  | inr (p, there) ↦
      Steps-of_Does
        (still (flag_dispute-Still now id said (any is_disputed p.flags) db db' u (ground arith)))
]

dispute_delivery-Steps :
    (now id : ℕ) (said : Option Text) (db : Db) → Steps db (dispute_delivery now id said db).1
unfolding dispute_delivery
dispute_delivery-Steps now id said db =
    with_transaction-Steps (dispute_tx now id said) (dispute_tx-Walks now id said) db

perform-Steps : (w : Runtime) (now : ℕ) (c : Call) (db : Db) → Steps db (perform w now c db)
unfolding perform create_order claim_payment confirm_payment transition_order_alone settle_refund
    waive_refund
perform-Steps w now (create fresh drawn r) db =
    create_checked-Steps w.uuid now fresh drawn r (check_request r) db
perform-Steps w now (post id sender body client) db =
    post_message-Steps w.uuid now id sender body client db
perform-Steps w now (photograph put deletes u) db =
    save_photo-Steps w.uuid w.spell deletes now put u db
perform-Steps w now (claim id reference wallet) db =
    claim_checked-Steps (reference_or_throw w.to_upper reference) (wallet_or_throw wallet w.wallets)
      now id db
perform-Steps w now (confirm id reference amount actor) db =
    confirm_checked-Steps (reference_or_throw w.to_upper reference) w.to_cents now id amount actor
      db
perform-Steps w now dispatch db = dispatch_waiting-Steps now db
perform-Steps w now (fail id actor note) db =
    with_critical_transaction-Steps (transition_order now id failed_refund actor note)
      (transition_order-Walks now id actor note) db
perform-Steps w now (pick_up id actor fix) db =
    confirm_pickup-Steps w.distance_meters now id actor fix db
perform-Steps w now (deliver id actor given reason fix) db =
    confirm_delivery-Steps w.distance_meters now id actor given reason fix db
perform-Steps w now (review id step actor) db = mark_proof_reviewed-Steps now id step actor db
perform-Steps w now (dispute id said) db = dispute_delivery-Steps now id said db
perform-Steps w now (settle id reference note actor) db =
    settle_with-Steps now id (trim (or_else reference [])) note actor db
perform-Steps w now (waive id note actor) db =
    waive_with-Steps now id (trim (or_else note [])) actor db

-- Whatever calls are made, the tables change by the five steps only.
pub run-Steps : (w : Runtime) (calls : List (ℕ × Call)) (db : Db) → Steps db (run w calls db)
unfolding run
run-Steps w [] db = stay
run-Steps w ((now, c) ∷ calls) db =
    Steps-trans (perform-Steps w now c db) (run-Steps w calls (perform w now c db))
