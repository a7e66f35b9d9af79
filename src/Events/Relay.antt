-- ===== src/Events/Relay.antt =====
-- The relay that publishes the outbox in order (backend/src/events/outbox.js).
pub mod Order
pub mod Drain
pub mod Cleared
use ghost_merchant.Base.{
  ℕ, suc, ◌+◌, ◌-◌, ◌*◌, ◌/◌, Bool, true, false, not, ◌&&◌, Option, none, some, is_some, List, [],
  ◌∷◌, ◌++◌, length, take, filter, ltb, leb, if◌then◌else◌,
}
use ghost_merchant.Base.Text.{Text}
use ghost_merchant.Base.Table.{update_by}
use ghost_merchant.Base.Loop.{Turn, go, halt, each}
use ghost_merchant.Db.{Event, OutboxRow}

abbrev pub batch_size : ℕ
batch_size = 100

abbrev pub max_attempts : ℕ
max_attempts = 5

abbrev pub retention_ms : ℕ
retention_ms = 7 * 24 * 60 * 60 * 1000

-- `published_at IS NULL AND NOT failed`
abbrev pub is_waiting : OutboxRow → Bool
is_waiting row = not (is_some row.published_at) && not row.failed

-- The rows that one batch reads; they stand in the order of their ids.
unfoldable pub batch : ℕ → List OutboxRow → List OutboxRow
batch size outbox = take size (filter is_waiting outbox)

abbrev pub update_row : ℕ → (OutboxRow → OutboxRow) → List OutboxRow → List OutboxRow
update_row = update_by λ row. row.id

-- The rows, the number that were delivered, and the events that the subscribers were given.
pub record Relayed : Type 0 where
  pub outbox : List OutboxRow
  pub delivered : ℕ
  -- what `publish` was called with
  pub handed : List Event

abbrev pub unrelayed : List OutboxRow → Relayed
unrelayed outbox = record { outbox = outbox; delivered = 0; handed = [] }

-- a call of `publish`
abbrev pub hand : OutboxRow → Relayed → Relayed
hand row r = record r { handed = r.handed ++ row.event ∷ [] }

-- What the subscribers do with an event: an error's message, where one of them throws.
abbrev pub Publish : Type 0
Publish = Event → Option Text

abbrev pub published : ℕ → OutboxRow → OutboxRow
published now row = record row { published_at = some now }

abbrev pub missed : OutboxRow → Text → OutboxRow → OutboxRow
missed seen message row = record row {
  attempts = seen.attempts + 1;
  last_error = some (take 500 message);
  failed = leb max_attempts (seen.attempts + 1);
}

unfoldable pub after_publish : Option Text → (OutboxRow → ℕ) → OutboxRow → Relayed → Turn Relayed
after_publish none clock row r = go (record r {
  outbox = update_row row.id (published (clock row)) r.outbox;
  delivered = r.delivered + 1;
})
after_publish (some message) clock row r =
    let marked = record r { outbox = update_row row.id (missed row message) r.outbox } in
    if leb max_attempts (row.attempts + 1) then go marked else halt marked

unfoldable pub relay_turn : Publish → (OutboxRow → ℕ) → OutboxRow → Relayed → Turn Relayed
relay_turn publish clock row r = after_publish (publish row.event) clock row (hand row r)

pub record Relay : Type 0 where
  pub fetched : ℕ
  pub relayed : Relayed

-- `relayOnce`, in one transaction, by the instance that has the lock
unfoldable pub relay_once : Bool → Publish → (OutboxRow → ℕ) → ℕ → List OutboxRow → Relay
relay_once false publish clock size outbox = record { fetched = 0; relayed = unrelayed outbox }
relay_once true publish clock size outbox =
    let rows = batch size outbox in
    record {
      fetched = length rows;
      relayed = each (relay_turn publish clock) rows (unrelayed outbox);
    }

-- `published_at < cutoff`
abbrev pub published_before : ℕ → Option ℕ → Bool
published_before cutoff none = false
published_before cutoff (some at) = ltb at cutoff

-- `sweepOutbox`
unfoldable pub sweep_outbox : ℕ → List OutboxRow → List OutboxRow
sweep_outbox now = filter λ row. not (published_before (now - retention_ms) row.published_at)

-- `findFirst` of the rows still to be published, by the time of their creation
abbrev earliest : Option ℕ → List OutboxRow → Option ℕ
earliest m [] = m
earliest none (row ∷ rows) = earliest (some row.created_at) rows
earliest (some t) (row ∷ rows) =
    earliest (some (if ltb row.created_at t then row.created_at else t)) rows

-- `Math.round`; a time to come counts as none
abbrev seconds_since : ℕ → Option ℕ → ℕ
seconds_since now none = 0
seconds_since now (some t) = (now - t + 500) / 1000

pub record Health : Type 0 where
  pub pending : ℕ
  pub parked : ℕ
  pub oldest_pending_seconds : ℕ

-- `outboxHealth`
unfoldable pub outbox_health : ℕ → List OutboxRow → Health
outbox_health now outbox =
    let rows = filter is_waiting outbox in
    record {
      pending = length rows;
      parked = length (filter (λ row. row.failed) outbox);
      oldest_pending_seconds = seconds_since now (earliest none rows);
    }
