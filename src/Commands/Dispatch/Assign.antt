-- ===== src/Commands/Dispatch/Assign.antt =====
-- What an assignment does to the tables.
use mathlib.Core.Option
use ghost_merchant.Base.{
  ℕ, ◌≡◌, refl, ap, ◌∙◌, sym, Option, none, some, ◌++◌, arith, ◌==◌, if◌then◌else◌, Option-cases,
  inl, inr, Bool-cases, ◌⊎◌,
}
use ghost_merchant.Base.Decimal.{decimal}
use ghost_merchant.Base.Table.{update_by, find_by-update_by}
use ghost_merchant.Base.Text.{text}
use ghost_merchant.Domain.StateMachine.{dispatched, paid_unassigned, same_status}
use ghost_merchant.Domain.Rotation.{Candidate, pick_driver, max_active_per_driver}
use ghost_merchant.Db.{Db, Order, Detail}
use ghost_merchant.Db.Tx.{ok, ◌>>=◌, >>=-eq-ok}
use ghost_merchant.Db.Rows.{order_of, find_order, add_order_event, audit}
use ghost_merchant.Commands.Orders.{transition_order}
use ghost_merchant.Commands.Orders.Transition.{moved, dues, transition_order-Transits}
use ghost_merchant.Commands.Dispatch.{give_to, dispatch_order, assign_driver, candidates_of}

-- The row with its driver, before it changes status.
abbrev pub with_driver : ℕ → Candidate → Order → Order
with_driver now d o = record o { driver_id = some d.id; updated_at = now }

-- The tables when the transition begins.
abbrev staged : ℕ → ℕ → Candidate → Db → Db
staged now id d db =
    assign_driver now d
      (record db { orders = update_by (λ r. r.id) id (with_driver now d) db.orders })

give_to_lem :
    (now id : ℕ) (d : Candidate) (db : Db) (before : Order)
    → order_of id db ≡ some before
    → give_to now id d db
      ≡ (transition_order now id dispatched
              (text "system:dispatch")
              (some (text "auto-assigned to " ++ d.name))
            >>= λ _ db₁. ok (
              some d,
              audit
                  (text "system:dispatch")
                  (text "order.dispatched")
                  (some (text "order:" ++ decimal id))
                  (Detail.assignment d.id d.name d.active_orders)
                  db₁,
            ))
          (staged now id d db)
unfolding give_to
give_to_lem now id d db before found = ground arith

-- The assignment of the order `id`, whose row was `before`, to `d`.
pub record Assigned (now id : ℕ) (d : Candidate) (before : Order) (db db' : Db) : Type 0 where
  pub picked : pick_driver (candidates_of db.orders db.drivers) max_active_per_driver ≡ some d
  pub waiting : before.status ≡ paid_unassigned
  pub orders :
      db'.orders
      ≡ update_by
          (λ r. r.id)
          id
          (moved now dispatched)
          (update_by (λ r. r.id) id (with_driver now d) db.orders)
  pub order_events :
      db'.order_events
      ≡ (add_order_event id
          (some before.status)
          dispatched
          (text "system:dispatch")
          (some (text "auto-assigned to " ++ d.name))
          db).order_events
  pub payments : db'.payments ≡ db.payments
  pub handoffs : db'.handoffs ≡ db.handoffs
  pub proofs : db'.proofs ≡ db.proofs
  pub photos : db'.photos ≡ db.photos
  pub drivers : db'.drivers ≡ (assign_driver now d db).drivers
  pub dues : dues db'.refunds ≡ dues db.refunds

found_staged :
    (now id : ℕ) (d : Candidate) (db : Db) (before : Order)
    → order_of id db ≡ some before
    → order_of id (staged now id d db) ≡ some (with_driver now d before)
unfolding assign_driver
found_staged now id d db before found =
    ground (arith, find_by-update_by (λ r. r.id) id id (with_driver now d) db.orders (λ o. refl))

give_to-Assigned :
    (now id : ℕ) (d : Candidate) (db db' : Db) (before : Order) (r : Option Candidate)
    → pick_driver (candidates_of db.orders db.drivers) max_active_per_driver ≡ some d
    → before.status ≡ paid_unassigned
    → order_of id db ≡ some before
    → give_to now id d db ≡ ok (r, db')
    → Assigned now id d before db db' × (r ≡ some d)
unfolding assign_driver
give_to-Assigned now id d db db' before r picked waits found h =
    let (o, db₁, moves, rest) =
      >>=-eq-ok
        (transition_order now id dispatched (text "system:dispatch")
          (some (text "auto-assigned to " ++ d.name)))
        (λ _ db₁. ok (
          some d,
          audit (text "system:dispatch") (text "order.dispatched")
              (some (text "order:" ++ decimal id)) (Detail.assignment d.id d.name d.active_orders)
              db₁,
        ))
        (staged now id d db) (sym (give_to_lem now id d db before found) ∙ h) in
    let (t, _) =
      transition_order-Transits now id dispatched (text "system:dispatch")
        (some (text "auto-assigned to " ++ d.name)) (staged now id d db) db₁
        (with_driver now d before) o (found_staged now id d db before found) moves in
    ground arith

-- Nobody and nothing, or an assignment.
abbrev pub Dispatches : ℕ → ℕ → Option Candidate → Db → Db → Type 0
Dispatches now id r db db' =
    ((r ≡ none) × (db' ≡ db))
    ⊎ ((d : Candidate) × (before : Order) × (r ≡ some d)
        × (order_of id db ≡ some before)
        × Assigned now id d before db db')

dispatch_waiting-cases :
    (now id : ℕ) (db db' : Db) (r : Option Candidate) (before : Order)
    → order_of id db ≡ some before
    → before.status ≡ paid_unassigned
    → dispatch_order now id db ≡ ok (r, db')
    → Dispatches now id r db db'
unfolding dispatch_order
dispatch_waiting-cases now id db db' r before found waits h =
    elim (Option-cases (pick_driver (candidates_of db.orders db.drivers) max_active_per_driver)) [
      | inl nobody ↦ inl (ground arith)
      | inr (d, picked) ↦
          let (done, back) =
            give_to-Assigned now id d db db' before r picked waits found (ground arith) in
          inr (d, before, back, found, done)
    ]

-- `dispatchOrder` either leaves everything as it is and reports nobody, or assigns the order.
pub dispatch_order-cases :
    (now id : ℕ) (db db' : Db) (r : Option Candidate)
    → dispatch_order now id db ≡ ok (r, db')
    → Dispatches now id r db db'
unfolding dispatch_order
dispatch_order-cases now id db db' r h = elim (Option-cases (order_of id db)) [
  | inl missing ↦ inl (ground arith)
  | inr (before, found) ↦ elim (Bool-cases (same_status before.status paid_unassigned)) [
    | inl waits ↦ dispatch_waiting-cases now id db db' r before found (ground arith) h
    | inr other ↦ inl (ground arith)
  ]
]

-- What is found after an assignment.
pub order_of-Assigned :
    (now id : ℕ) (d : Candidate) (before : Order) (db db' : Db) (j : ℕ)
    → Assigned now id d before db db'
    → order_of j db' ≡ (
        if id == j
        then Option.map (λ o. moved now dispatched (with_driver now d o)) (order_of j db)
        else order_of j db)
order_of-Assigned now id d before db db' j a =
    ap (find_order j) a.orders
    ∙ ground (
      arith,
      find_by-update_by (λ r. r.id) j id (moved now dispatched)
          (update_by (λ r. r.id) id (with_driver now d) db.orders) (λ o. refl),
      find_by-update_by (λ r. r.id) j id (with_driver now d) db.orders (λ o. refl),
    )
