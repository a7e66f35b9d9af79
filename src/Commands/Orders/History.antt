-- ===== src/Commands/Orders/History.antt =====
-- The events of an order explain its status.
use mathlib.Core.Option
use ghost_merchant.Base.{
  ℕ, ◌≡◌, refl, sym, ap, ◌∙◌, inl, inr, true, Option, none, some, List, [], ◌∷◌, ◌++◌, arith, ◌==◌,
  ◌&&◌, if◌then◌else◌, Option-cases,
}
use ghost_merchant.Base.Text.{Text}
use ghost_merchant.Domain.StateMachine.{Status, same_status, pending_payment, can_transition}
use ghost_merchant.Db.{Db, Order, OrderEvent}
use ghost_merchant.Db.Tx.{Tx, ok, ◌>>=◌, >>=-eq-ok}
use ghost_merchant.Db.Rows.{order_of, find_order}
use ghost_merchant.Commands.Orders.{transition_order, insert_message}
use ghost_merchant.Commands.Orders.Transition.{
  SameOrders, Transits, order_of-Transits, transition_order-Transits, transition_order-refuses,
  insert_message-SameOrders,
}

-- The status that an event leads to: an order begins as PENDING_PAYMENT, and goes on from the
-- status that it has, by a legal transition. `none` is an event that does not fit.
abbrev follow : Option Status → OrderEvent → Option (Option Status)
follow none e = elim e.from_status [
  | none ↦ if same_status e.to_status pending_payment then some (some pending_payment) else none
  | some f ↦ none
]
follow (some s) e = elim e.from_status [
  | none ↦ none
  | some f ↦
      if same_status s f && can_transition f e.to_status then some (some e.to_status) else none
]

abbrev replay_one : ℕ → Option (Option Status) → OrderEvent → Option (Option Status)
replay_one id none e = none
replay_one id (some s) e = if e.order_id == id then follow s e else some s

-- The status that the events of the order `id` add up to.
abbrev pub replay : ℕ → Option (Option Status) → List OrderEvent → Option (Option Status)
replay id s [] = s
replay id s (e ∷ es) = replay id (replay_one id s e) es

pub replay-append :
    (id : ℕ) (s : Option (Option Status)) (xs ys : List OrderEvent)
    → replay id s (xs ++ ys) ≡ replay id (replay id s xs) ys
replay-append id s [] ys = refl
replay-append id s (x ∷ xs) ys = replay-append id (replay_one id s x) xs ys

abbrev pub status_of : ℕ → Db → Option Status
status_of id db = Option.map (λ o. o.status) (order_of id db)

-- For every id, the log replayed gives the status that the order has, and nothing where there is
-- no order.
abbrev pub IsAudited : Db → Type 0
IsAudited db = (id : ℕ) → replay id (some none) db.order_events ≡ some (status_of id db)

-- A step that changes no status and writes no event.
pub record Quiet (db db' : Db) : Type 0 where
  pub status : (id : ℕ) → status_of id db' ≡ status_of id db
  pub order_events : db'.order_events ≡ db.order_events

pub Quiet-IsAudited : {db db' : Db} → Quiet db db' → IsAudited db → IsAudited db'
Quiet-IsAudited {db} {db'} q h id =
    ap (replay id (some none)) q.order_events ∙ h id ∙ ap some (sym (q.status id))

pub Quiet-of_SameOrders : {db db' : Db} → SameOrders db db' → Quiet db db'
Quiet-of_SameOrders {db} {db'} s = record {
  status = λ id. ap (λ os. Option.map (λ o. o.status) (find_order id os)) s.orders;
  order_events = s.order_events;
}

pub same_status_refl : (s : Status) → same_status s s ≡ true
same_status_refl s = ground arith

pub Transits-replay :
    (now id : ℕ) (to : Status) (actor : Text) (why : Option Text) (db db' : Db) (before o : Order)
    → order_of id db ≡ some before
    → Transits now id to actor why before db db'
    → IsAudited db
    → IsAudited db'
Transits-replay now id to actor why db db' before o found t h j = ground (
  arith,
  h j,
  order_of-Transits now id to actor why before db db' j t,
  same_status_refl before.status,
  replay-append j (some none) db.order_events (
      record {
        order_id = id;
        from_status = some before.status;
        to_status = to;
        actor = actor;
        note = why;
      }
      ∷ []),
)

-- An action that keeps the log and the statuses in agreement.
abbrev pub Audits : {A : Type 0} → Tx A → Type 0
Audits {A} m = (db db' : Db) (a : A) → m db ≡ ok (a, db') → IsAudited db → IsAudited db'

pub >>=-Audits :
    {A B : Type 0} (m : Tx A) (f : A → Tx B)
    → Audits m
    → ((a : A) → Audits (f a))
    → Audits (m >>= f)
>>=-Audits m f hm hf db db' b e h =
    let (a, db₁, first, rest) = >>=-eq-ok m f db e in hf a db₁ db' b rest (hm db db₁ a first h)

pub insert_message-Audits :
    (now id : ℕ) (sender body : Text) (client : Option ℕ)
    → Audits (insert_message now id sender body client)
insert_message-Audits now id sender body client db db' m e =
    Quiet-IsAudited
      (Quiet-of_SameOrders (insert_message-SameOrders now id sender body client db db' m e))

pub transition_order-Audits :
    (now id : ℕ) (to : Status) (actor : Text) (why : Option Text)
    → Audits (transition_order now id to actor why)
transition_order-Audits now id to actor why db db' o e h = elim (Option-cases (order_of id db)) [
  | inl missing ↦ cc ((transition_order-refuses now id to actor why db).0 missing)
  | inr (before, found) ↦
      Transits-replay now id to actor why db db' before o found
        (transition_order-Transits now id to actor why db db' before o found e).0 h
]

-- Where the log of events, replayed, gives every order its status, it does so after a transition
-- that went through: no status changes without its event.
pub transition_order-IsAudited :
    (now id : ℕ) (to : Status) (actor : Text) (why : Option Text) (db db' : Db) (o : Order)
    → transition_order now id to actor why db ≡ ok (o, db')
    → IsAudited db
    → IsAudited db'
transition_order-IsAudited now id to actor why db db' o h e =
    transition_order-Audits now id to actor why db db' o h e
