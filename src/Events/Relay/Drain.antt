-- ===== src/Events/Relay/Drain.antt =====
-- `drain` of backend/src/events/outbox.js: batches while they come back full. Rows that are written
-- in the meantime are left to the next drain.
use ghost_merchant.Base.{
  ℕ, zero, suc, ◌+◌, ◌-◌, ◌≤◌, ◌<◌, ◌≡◌, ◌≢◌, refl, sym, ◌∙◌, Bool, true, false, Option, none, some,
  List, [], ◌∷◌, ◌++◌, ◌==◌, leb, if◌then◌else◌, length, filter, All, arith, Bool-cases, inl, inr,
}
use ghost_merchant.Base.Keys.{
  All-filter, All-take, All-zip, total, Distinct, Distinct-filter, Distinct-take,
  Distinct-update_by, total-update_by, find_by_each,
}
use ghost_merchant.Base.Table.{update_by}
use ghost_merchant.Base.Text.{Text}
use ghost_merchant.Base.Loop.{Turn, go, halt, left, each, each_invariant}
use ghost_merchant.Db.{OutboxRow, Event}
use ghost_merchant.Events.Relay.{
  Publish, Relayed, unrelayed, hand, after_publish, relay_turn, relay_once, batch, batch_size,
  max_attempts, is_waiting, published, missed,
}
use ghost_merchant.Events.Relay.Order.{row_of, after_publish_local}

-- What the batches of a drain meet: whether the lock is free, what the subscribers do, and the
-- clock, each time anew.
pub record Rounds : Type 0 where
  pub is_free : ℕ → Bool
  pub publish : ℕ → Publish
  pub clock : ℕ → OutboxRow → ℕ

-- What a drain leaves: the outbox, and the events that were handed to the subscribers.
abbrev pub Drained : Type 0
Drained = List OutboxRow × List Event

abbrev pub after_batch : List Event → Option Drained → Option Drained
after_batch handed none = none
after_batch handed (some (outbox, later)) = some (outbox, handed ++ later)

-- The loop from the batch `n` on, on fuel; `none` is a loop that goes on.
unfoldable pub drain : ℕ → Rounds → ℕ → List OutboxRow → Option Drained
drain zero w n outbox = none
drain (suc fuel) w n outbox =
    let r = relay_once (w.is_free n) (w.publish n) (w.clock n) batch_size outbox in
    let rest = drain fuel w (suc n) r.relayed.outbox in
    if r.fetched == batch_size
    then after_batch r.relayed.handed rest
    else some (r.relayed.outbox, r.relayed.handed)

abbrev pub row_id : OutboxRow → ℕ
row_id row = row.id

-- The tries that a row has left, and one.
abbrev tries : OutboxRow → ℕ
tries row = if is_waiting row then suc (max_attempts - row.attempts) else 0

-- A bound on the batches of a drain: each full one publishes its first row, or uses up a try.
abbrev pub all_tries : List OutboxRow → ℕ
all_tries outbox = total tries outbox

-- 1 where there is a row
abbrev first_of : List OutboxRow → ℕ
first_of [] = 0
first_of (x ∷ xs) = 1

-- The row stands in the outbox as it was read.
abbrev pub Listed : List OutboxRow → OutboxRow → Type 0
Listed outbox row = (row_of row.id outbox ≡ some row) × (is_waiting row ≡ true)

after_publish_falls :
    (clock : OutboxRow → ℕ) (o : Option Text) (row : OutboxRow) (r : Relayed)
    → Listed r.outbox row
    → all_tries (left (after_publish o clock row r)).outbox < all_tries r.outbox
unfolding after_publish
after_publish_falls clock none row r (there, waits) =
    ground (arith, total-update_by row_id tries row.id (published (clock row)) r.outbox row there)
after_publish_falls clock (some m) row r (there, waits) =
    ground (arith, total-update_by row_id tries row.id (missed row m) r.outbox row there)

pub after_publish-Listed :
    (clock : OutboxRow → ℕ) (o : Option Text) (row : OutboxRow) (rows : List OutboxRow)
    (r : Relayed)
    → All (λ x. row.id ≢ x.id) rows
    → All (Listed r.outbox) rows
    → All (Listed (left (after_publish o clock row r)).outbox) rows
after_publish-Listed clock o row rows r away listed =
    All-zip rows (λ x n h. (after_publish_local clock x.id o row r (λ e. n (sym e)) ∙ h.0, h.1))
      away listed

module _ (publish : Publish) (clock : OutboxRow → ℕ) where
  -- A batch that is not empty makes progress.
  relay_falls :
      (rows : List OutboxRow) (r : Relayed)
      → Distinct row_id rows
      → All (Listed r.outbox) rows
      → all_tries (each (relay_turn publish clock) rows r).outbox + first_of rows
        ≤ all_tries r.outbox
  unfolding each relay_turn
  relay_falls [] r d h = omega arith
  relay_falls (row ∷ rows) r (away, d) (first, h) =
      after (after_publish (publish row.event) clock row (hand row r))
        (after_publish_falls clock (publish row.event) row (hand row r) first)
        (after_publish-Listed clock (publish row.event) row rows (hand row r) away h)
        (λ s k. relay_falls rows s d k)
    where
      after :
          (t : Turn Relayed)
          → all_tries (left t).outbox < all_tries r.outbox
          → All (Listed (left t).outbox) rows
          → ((s : Relayed)
              → All (Listed s.outbox) rows
              → all_tries (each (relay_turn publish clock) rows s).outbox + first_of rows
                ≤ all_tries s.outbox)
          → let s : Relayed = elim t [
            | go s' ↦ each (relay_turn publish clock) rows s'
            | halt s' ↦ s'
          ] in
            all_tries s.outbox + 1 ≤ all_tries r.outbox
      after (go s) falls k ih = omega (arith, falls, ih s k)
      after (halt s) falls k ih = omega (arith, falls)

-- Whatever becomes of a row, the ids stay.
pub after_publish-Distinct :
    (clock : OutboxRow → ℕ) (o : Option Text) (row : OutboxRow) (r : Relayed)
    → Distinct row_id r.outbox
    → Distinct row_id (left (after_publish o clock row r)).outbox
unfolding after_publish
after_publish-Distinct clock none row r d =
    Distinct-update_by row_id row.id (published (clock row)) (λ x. refl) r.outbox d
after_publish-Distinct clock (some m) row r d =
    either (leb max_attempts (row.attempts + 1))
      (Distinct-update_by row_id row.id (missed row m) (λ x. refl) r.outbox d)
  where
    either :
        (b : Bool)
        → Distinct row_id (update_by row_id row.id (missed row m) r.outbox)
        → let marked = record r { outbox = update_by row_id row.id (missed row m) r.outbox } in
          let t : Turn Relayed = if b then go marked else halt marked in
          Distinct row_id (left t).outbox
    either true k = k
    either false k = k

pub batch-Listed :
    (size : ℕ) (outbox : List OutboxRow)
    → Distinct row_id outbox
    → All (Listed outbox) (batch size outbox)
unfolding batch
batch-Listed size outbox d = All-take (Listed outbox) size (filter is_waiting outbox) (
    All-zip (filter is_waiting outbox) (λ x f w. (f, w))
      (All-filter (λ x. row_of x.id outbox ≡ some x) is_waiting outbox
        (find_by_each row_id outbox d))
      (waits outbox))
  where
    waits : (xs : List OutboxRow) → All (λ x. is_waiting x ≡ true) (filter is_waiting xs)
    waits [] = tt
    waits (x ∷ xs) = keep (is_waiting x) refl (waits xs)
      where
        keep :
            (b : Bool)
            → is_waiting x ≡ b
            → All (λ x. is_waiting x ≡ true) (filter is_waiting xs)
            → All
                (λ x. is_waiting x ≡ true)
                (if b then x ∷ filter is_waiting xs else filter is_waiting xs)
        keep true e rest = (e, rest)
        keep false e rest = rest

pub batch-Distinct :
    (size : ℕ) (outbox : List OutboxRow)
    → Distinct row_id outbox
    → Distinct row_id (batch size outbox)
unfolding batch
batch-Distinct size outbox d =
    Distinct-take row_id size (filter is_waiting outbox)
      (Distinct-filter row_id is_waiting outbox d)

-- One batch, with the lock or without it.
pub relay_once-Distinct :
    (b : Bool) (publish : Publish) (clock : OutboxRow → ℕ) (size : ℕ) (outbox : List OutboxRow)
    → Distinct row_id outbox
    → Distinct row_id (relay_once b publish clock size outbox).relayed.outbox
unfolding relay_once relay_turn
relay_once-Distinct false publish clock size outbox d = d
relay_once-Distinct true publish clock size outbox d =
    each_invariant (relay_turn publish clock) (λ x. Unit {0}) (λ r. Distinct row_id r.outbox)
      (λ row r _ h. after_publish-Distinct clock (publish row.event) row (hand row r) h)
      (batch size outbox) (unrelayed outbox) (every (batch size outbox)) d
  where
    every : (xs : List OutboxRow) → All (λ x. Unit {0}) xs
    every [] = tt
    every (x ∷ xs) = (tt, every xs)

pub relay_once_falls :
    (b : Bool) (publish : Publish) (clock : OutboxRow → ℕ) (outbox : List OutboxRow)
    → Distinct row_id outbox
    → let r = relay_once b publish clock batch_size outbox in
      r.fetched ≡ batch_size → all_tries r.relayed.outbox < all_tries outbox
unfolding relay_once
relay_once_falls false publish clock outbox d full = omega (arith, full)
relay_once_falls true publish clock outbox d full =
    let r : Relayed = unrelayed outbox in
    let falls =
      relay_falls publish clock (batch batch_size outbox) r (batch-Distinct batch_size outbox d)
        (batch-Listed batch_size outbox d) in
    omega (arith, falls, some_first (batch batch_size outbox) full)
  where
    some_first : (xs : List OutboxRow) → length xs ≡ 100 → first_of xs ≡ 1
    some_first [] h = ground arith
    some_first (x ∷ xs) h = refl

-- A drain comes to an end: whatever the subscribers do in each batch, and whether or not the lock
-- is had, an outbox with distinct ids is drained by the fuel of all the tries that its rows have
-- left, one for each batch, and one more.
pub drain-halts :
    (fuel : ℕ) (w : Rounds) (n : ℕ) (outbox : List OutboxRow)
    → Distinct row_id outbox
    → all_tries outbox < fuel
    → (left : Drained) × (drain fuel w n outbox ≡ some left)
unfolding drain
drain-halts zero w n outbox d few = absurd (omega arith)
drain-halts (suc fuel) w n outbox d few =
    let r = relay_once (w.is_free n) (w.publish n) (w.clock n) batch_size outbox in
    elim (Bool-cases (r.fetched == batch_size)) [
      | inl full ↦
          let (out, e) =
            drain-halts fuel w (suc n) r.relayed.outbox
              (relay_once-Distinct (w.is_free n) (w.publish n) (w.clock n) batch_size outbox d)
              (omega (
                arith,
                relay_once_falls (w.is_free n) (w.publish n) (w.clock n) outbox d (ground arith),
              )) in
          ((out.0, r.relayed.handed ++ out.1), ground arith)
      | inr short ↦ ((r.relayed.outbox, r.relayed.handed), ground arith)
    ]
