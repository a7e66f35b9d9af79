-- ===== src/Events/Relay/Order.antt =====
-- The relay keeps the order of the events.
use ghost_merchant.Base.{
  ℕ, ◌≡◌, ◌≢◌, ap, ◌∙◌, subst, Option, none, some, List, ◌∷◌, ◌++◌, All, true, arith,
}
use ghost_merchant.Base.Text.{Text}
use ghost_merchant.Base.Table.{find_by, find_by-update_by}
use ghost_merchant.Base.Loop.{go, left, each, each_in_order}
use ghost_merchant.Db.{OutboxRow}
use ghost_merchant.Events.Relay.{
  Publish, Relayed, unrelayed, hand, after_publish, relay_turn, relay_once, batch, is_waiting,
  published, missed,
}

abbrev pub row_of : ℕ → List OutboxRow → Option OutboxRow
row_of = find_by λ row. row.id

abbrev row_in : ℕ → Relayed → Option OutboxRow
row_in k r = row_of k r.outbox

-- There is such a row, and it is still to be published.
abbrev pub Waits : Option OutboxRow → Type 0
Waits row = (x : OutboxRow) × (row ≡ some x) × (is_waiting x ≡ true)

pub after_publish_local :
    (clock : OutboxRow → ℕ) (k : ℕ) (o : Option Text) (row : OutboxRow) (r : Relayed)
    → k ≢ row.id
    → row_in k (left (after_publish o clock row r)) ≡ row_in k r
unfolding after_publish
after_publish_local clock k none row r away =
    ground (arith, find_by-update_by (λ x. x.id) k row.id (published (clock row)) r.outbox)
after_publish_local clock k (some m) row r away =
    ground (arith, find_by-update_by (λ x. x.id) k row.id (missed row m) r.outbox)

after_publish_settles :
    (clock : OutboxRow → ℕ) (o : Option Text) (row : OutboxRow) (r r' : Relayed)
    → after_publish o clock row r ≡ go r'
    → Waits (row_in row.id r')
    → ⊥
unfolding after_publish
after_publish_settles clock none row r r' e (x, at, waits) =
    ground (arith, find_by-update_by (λ x. x.id) row.id row.id (published (clock row)) r.outbox)
after_publish_settles clock (some m) row r r' e (x, at, waits) =
    ground (arith, find_by-update_by (λ x. x.id) row.id row.id (missed row m) r.outbox)

-- A row of a batch that is still to be published when the relay is done has stopped it: every row
-- that is not before it in the batch, a later one above all, stands as it did. So no event of an
-- order is published ahead of an earlier one that will be tried again.
pub relay_once_in_order :
    (publish : Publish) (clock : OutboxRow → ℕ) (size : ℕ) (outbox : List OutboxRow)
    (earlier : List OutboxRow) (row : OutboxRow) (later : List OutboxRow) (k : ℕ)
    → batch size outbox ≡ earlier ++ row ∷ later
    → All (λ x. row.id ≢ x.id) later
    → k ≢ row.id
    → All (λ x. k ≢ x.id) earlier
    → Waits (row_of row.id (relay_once true publish clock size outbox).relayed.outbox)
    → row_of k (relay_once true publish clock size outbox).relayed.outbox ≡ row_of k outbox
unfolding relay_once relay_turn
relay_once_in_order publish clock size outbox earlier row later k is_batch distinct away apart
      waits =
    let start : Relayed = unrelayed outbox in
    let same = ap (λ rows. each (relay_turn publish clock) rows start) is_batch in
    ap (row_in k) same
    ∙ each_in_order (relay_turn publish clock) (λ x. x.id) row_in
        (λ j r s apart. after_publish_local clock j (publish r.event) r (hand r s) apart) Waits
        (λ r s s' e held. after_publish_settles clock (publish r.event) r (hand r s) s' e held)
        earlier row later k start distinct away apart
        (subst (λ r. Waits (row_in row.id r)) same waits)
