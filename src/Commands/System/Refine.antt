-- ===== src/Commands/System/Refine.antt =====
-- The system against the transition table: what is seen of the tables is a book of statuses, and a
-- run of calls writes in it only what the table allows.
use ghost_merchant.Base.{
  ℕ, suc, ◌≡◌, ◌∙◌, true, Option, none, some, List, [], ◌∷◌, ◌==◌, if◌then◌else◌, arith, Bool-cases,
  inl, inr,
}
use ghost_merchant.Base.Table.{find_by-append}
use ghost_merchant.Domain.StateMachine.{
  Status, pending_payment, paid_unassigned, dispatched, can_transition,
}
use ghost_merchant.Domain.StateMachine.Graph.{Life, here, next}
use ghost_merchant.Db.{Db}
use ghost_merchant.Commands.Orders.Transition.{order_of-Transits}
use ghost_merchant.Commands.Orders.History.{status_of}
use ghost_merchant.Commands.Dispatch.Assign.{order_of-Assigned}
use ghost_merchant.Commands.Payments.{payment_row}
use ghost_merchant.Commands.Payments.Confirmation.{with_payment, paid_note}
use ghost_merchant.Commands.System.{Runtime, Call, run}
use ghost_merchant.Commands.System.Steps.{
  Does, still, born, paid, sent, moves, Steps, stay, can_dispatch,
}
use ghost_merchant.Commands.System.Trace.{run-Steps}

-- The abstract state: the status of each order that there is.
abbrev pub Book : Type 0
Book = ℕ → Option Status

abbrev pub book : Db → Book
book db id = status_of id db

abbrev pub written : ℕ → Status → Book → Book
written id s v j = if id == j then some s else v j

-- The abstract steps: nothing, a new order at the beginning, and an edge of the table.
pub data Stride (v v' : Book) : Type 0 where
  same : ((j : ℕ) → v' j ≡ v j) → Stride v v'
  opens : (id : ℕ) → v id ≡ none → ((j : ℕ) → v' j ≡ written id pending_payment v j) → Stride v v'
  edge :
      (id : ℕ) (s t : Status)
      → v id ≡ some s
      → can_transition s t ≡ true
      → ((j : ℕ) → v' j ≡ written id t v j)
      → Stride v v'

pub data Strides (v : Book) : Book → Type 0 where
  begin : Strides v v
  stride : {b c : Book} → Strides v b → Stride b c → Strides v c

Does-Stride : {db db' : Db} → Does db db' → Stride (book db) (book db')
Does-Stride {db} {db'} (still s) = same λ j. ground (arith, s.briefs j)
Does-Stride {db} {db'} (born o actor why b) = opens o.id (ground (arith, b.absent)) λ j.
    ground (arith, b.absent, b.pending, b.orders, find_by-append (λ x. x.id) j db.orders (o ∷ []))
Does-Stride {db} {db'} (paid now id ref actor before found waits unused t) =
    edge id before.status paid_unassigned (ground arith) t.legal λ j. ground (
      arith,
      order_of-Transits now id paid_unassigned actor (paid_note ref) before
          (with_payment (payment_row id ref actor before) db) db' j t,
    )
Does-Stride {db} {db'} (sent now id d before found a) =
    edge id before.status dispatched (ground arith) (can_dispatch a.waiting)
      λ j. ground (arith, order_of-Assigned now id d before db db' j a)
Does-Stride {db} {db'} (moves now id to actor why before found nd nu t) =
    edge id before.status to (ground arith) t.legal
      λ j. ground (arith, order_of-Transits now id to actor why before db db' j t)

Steps-Strides : {db db' : Db} → Steps db db' → Strides (book db) (book db')
Steps-Strides stay = begin
Steps-Strides (Steps.next h d) = stride (Steps-Strides h) (Does-Stride d)

-- The commands refine the transition table: whatever calls are made, with whatever arguments and
-- from whatever tables, the statuses change by new orders that wait for payment and by edges of
-- the table, and by nothing else.
pub run-Strides :
    (w : Runtime) (calls : List (ℕ × Call)) (db : Db) → Strides (book db) (book (run w calls db))
run-Strides w calls db = Steps-Strides (run-Steps w calls db)

Life-trans : {s t u : Status} {m n : ℕ} → Life s m t → Life t n u → (k : ℕ) × Life s k u
Life-trans h here = (_, h)
Life-trans h (next l e) = let (k, g) = Life-trans h l in (suc k, next g e)

-- What a status becomes.
abbrev Becomes : Status → Option Status → Type 0
Becomes s o = (t : Status) × (n : ℕ) × (o ≡ some t) × Life s n t

Stride-Becomes :
    {v v' : Book} (id : ℕ) (s : Status) → Stride v v' → v id ≡ some s → Becomes s (v' id)
Stride-Becomes id s (same h) e = (s, 0, h id ∙ e, here)
Stride-Becomes {v} {v'} id s (opens i absent h) e = elim (Bool-cases (i == id)) [
  | inl this ↦ absurd (ground arith)
  | inr other ↦ (s, 0, ground (arith, h id), here)
]
Stride-Becomes {v} {v'} id s (edge i a t at legal h) e = elim (Bool-cases (i == id)) [
  | inl this ↦ (t, 1, ground (arith, h id), next here (ground arith))
  | inr other ↦ (s, 0, ground (arith, h id), here)
]

Strides-Becomes :
    {v v' : Book} (id : ℕ) (s : Status) → Strides v v' → v id ≡ some s → Becomes s (v' id)
Strides-Becomes id s begin e = (s, 0, e, here)
Strides-Becomes id s (stride h d) e =
    let (t, n, at, l) = Strides-Becomes id s h e in
    let (u, m, at', k) = Stride-Becomes id t d at in
    let (j, both) = Life-trans l k in (u, j, at', both)

-- No order is lost and none goes back: an order that has a status has, after whatever calls, a
-- status that legal transitions lead to from the one that it had, in a number of them.
pub run_advances :
    (w : Runtime) (calls : List (ℕ × Call)) (db : Db) (id : ℕ) (s : Status)
    → status_of id db ≡ some s
    → (t : Status) × (n : ℕ) × (status_of id (run w calls db) ≡ some t) × Life s n t
run_advances w calls db id s at = Strides-Becomes id s (run-Strides w calls db) at
