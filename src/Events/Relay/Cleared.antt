-- ===== src/Events/Relay/Cleared.antt =====
-- Events that the subscribers take are all published, once and in order.
use ghost_merchant.Base.{
  ℕ, zero, suc, ◌+◌, ◌<◌, ◌≡◌, ◌≢◌, refl, sym, ap, ◌∙◌, subst, Bool, true, false, none, some, List,
  [], ◌∷◌, ◌++◌, ◌==◌, length, map, filter, take, drop, All, arith, Bool-cases, inl, inr,
}
use ghost_merchant.Base.Keys.{Distinct}
use ghost_merchant.Base.Table.{update_by}
use ghost_merchant.Base.Loop.{go, halt, each}
use ghost_merchant.Db.{OutboxRow, Event}
use ghost_merchant.Events.Relay.{
  Publish, Relayed, unrelayed, hand, after_publish, relay_turn, relay_once, batch, batch_size,
  is_waiting, published,
}
use ghost_merchant.Events.Relay.Drain.{
  Rounds, after_batch, drain, row_id, all_tries, after_publish-Distinct, relay_once-Distinct,
  relay_once_falls,
}

-- The events of rows, in their order.
abbrev pub events : List OutboxRow → List Event
events rows = map (λ row. row.event) rows

append_nil : (es : List Event) → es ++ [] ≡ es
append_nil [] = refl
append_nil (e ∷ es) = ap (λ xs. e ∷ xs) (append_nil es)

append_one :
    (es : List Event) (e : Event) (more : List Event) → (es ++ e ∷ []) ++ more ≡ es ++ e ∷ more
append_one [] e more = refl
append_one (x ∷ es) e more = ap (λ xs. x ∷ xs) (append_one es e more)

-- What all rows have, the first of those that wait has.
first_waiting {κ} :
    (P : OutboxRow → Type κ) (xs : List OutboxRow) (row : OutboxRow) (more : List OutboxRow)
    → All P xs
    → filter is_waiting xs ≡ row ∷ more
    → P row
first_waiting P [] row more h e = cc
first_waiting P (x ∷ xs) row more (a, h) e = elim (Bool-cases (is_waiting x)) [
  | inl waits ↦ subst P (ground arith) a
  | inr rests ↦ first_waiting P xs row more h (ground arith)
]

-- The first row that waits, once it is published, waits no more; the others stand as they did.
published_first :
    (t : ℕ) (xs : List OutboxRow) (row : OutboxRow) (more : List OutboxRow)
    → Distinct row_id xs
    → filter is_waiting xs ≡ row ∷ more
    → filter is_waiting (update_by row_id row.id (published t) xs) ≡ more
published_first t [] row more d e = cc
published_first t (x ∷ xs) row more (away, d) e = elim (Bool-cases (is_waiting x)) [
  | inl waits ↦ ground arith
  | inr rests ↦
      let apart = first_waiting (λ y. row_id x ≢ row_id y) xs row more away (ground arith) in
      ground (arith, apart, published_first t xs row more d)
]

module _ (publish : Publish) (clock : OutboxRow → ℕ)
    (takes : (row : OutboxRow) → publish row.event ≡ none) where
  taken :
      (row : OutboxRow) (r : Relayed)
      → relay_turn publish clock row r
        ≡ go (record (hand row r) {
          outbox = update_by row_id row.id (published (clock row)) r.outbox;
          delivered = r.delivered + 1;
        })
  unfolding relay_turn after_publish
  taken row r = rw (takes row)

  each_taken :
      (row : OutboxRow) (rows : List OutboxRow) (r s : Relayed)
      → relay_turn publish clock row r ≡ go s
      → each (relay_turn publish clock) (row ∷ rows) r ≡ each (relay_turn publish clock) rows s
  unfolding each
  each_taken row rows r s e =
      ap (λ t. elim t [ go s' ↦ each (relay_turn publish clock) rows s' | halt s' ↦ s' ]) e

  -- A batch of the rows that wait hands them over and leaves those that were not in it.
  relay_clears :
      (rows later : List OutboxRow) (r : Relayed)
      → Distinct row_id r.outbox
      → filter is_waiting r.outbox ≡ rows ++ later
      → let s : Relayed = each (relay_turn publish clock) rows r in
        (filter is_waiting s.outbox ≡ later) × (s.handed ≡ r.handed ++ events rows)
  unfolding each
  relay_clears [] later r d e = (e, sym (append_nil r.handed))
  relay_clears (row ∷ rows) later r d e =
      let s : Relayed = record (hand row r) {
        outbox = update_by row_id row.id (published (clock row)) r.outbox;
        delivered = r.delivered + 1;
      } in
      let (clear, handed) =
        relay_clears rows later s
          (unfold after_publish in after_publish-Distinct clock none row r d)
          (published_first (clock row) r.outbox row (rows ++ later) d e) in
      let same = each_taken row rows r s (taken row r) in
      (
        ap (λ t. filter is_waiting t.outbox) same ∙ clear,
        ap (λ t. t.handed) same ∙ handed ∙ append_one r.handed row.event (events rows),
      )

length-take_full :
    (n : ℕ) (xs : List OutboxRow) → length (take n xs) ≢ n → (take n xs ≡ xs) × (drop n xs ≡ [])
length-take_full zero xs h = absurd (h refl)
length-take_full (suc n) [] h = (refl, refl)
length-take_full (suc n) (x ∷ xs) h = ground (arith, length-take_full n xs)

take-drop : (n : ℕ) (xs : List OutboxRow) → xs ≡ take n xs ++ drop n xs
take-drop zero xs = refl
take-drop (suc n) [] = refl
take-drop (suc n) (x ∷ xs) = ap (λ ys. x ∷ ys) (take-drop n xs)

-- What a batch with the lock does, on the rows that wait.
relay_once_clears :
    (b : Bool)
    → b ≡ true
    → (publish : Publish) (clock : OutboxRow → ℕ) (outbox : List OutboxRow)
    → ((row : OutboxRow) → publish row.event ≡ none)
    → Distinct row_id outbox
    → let r = relay_once b publish clock batch_size outbox in
      (r.fetched ≡ length (take batch_size (filter is_waiting outbox)))
      × (filter is_waiting r.relayed.outbox ≡ drop batch_size (filter is_waiting outbox))
      × (r.relayed.handed ≡ events (take batch_size (filter is_waiting outbox)))
unfolding relay_once batch
relay_once_clears false e publish clock outbox takes d = cc
relay_once_clears true e publish clock outbox takes d =
    let all = filter is_waiting outbox in
    let (clear, handed) =
      relay_clears publish clock takes (take batch_size all) (drop batch_size all)
        (unrelayed outbox) d (take-drop batch_size all) in
    (refl, clear, handed)

events-append : (xs ys : List OutboxRow) → events (xs ++ ys) ≡ events xs ++ events ys
events-append [] ys = refl
events-append (x ∷ xs) ys = ap (λ es. x.event ∷ es) (events-append xs ys)

is_same : (m n : ℕ) → (m == n) ≡ true → m ≡ n
is_same m n h = ground arith

is_other : (m n : ℕ) → (m == n) ≡ false → m ≢ n
is_other m n h e = ground arith

-- A drain whose first batch is full, and one whose first batch is not.
drain_full :
    (fuel : ℕ) (w : Rounds) (n : ℕ) (outbox : List OutboxRow)
    → let r = relay_once (w.is_free n) (w.publish n) (w.clock n) batch_size outbox in
      (r.fetched == batch_size) ≡ true
      → drain (suc fuel) w n outbox
        ≡ after_batch r.relayed.handed (drain fuel w (suc n) r.relayed.outbox)
unfolding drain
drain_full fuel w n outbox full = rw full

drain_short :
    (fuel : ℕ) (w : Rounds) (n : ℕ) (outbox : List OutboxRow)
    → let r = relay_once (w.is_free n) (w.publish n) (w.clock n) batch_size outbox in
      (r.fetched == batch_size) ≡ false
      → drain (suc fuel) w n outbox ≡ some (r.relayed.outbox, r.relayed.handed)
unfolding drain
drain_short fuel w n outbox short = rw short

-- Every event is published: where the lock is had and the subscribers take every event, the drain
-- of an outbox with distinct ids ends, on the fuel of the tries that its rows have left and one
-- more; it hands the subscribers the events of all the rows that wait, each once and in the order
-- of the outbox, and no row waits after it.
pub drain_clears :
    (fuel : ℕ) (w : Rounds) (n : ℕ) (outbox : List OutboxRow)
    → ((i : ℕ) → w.is_free i ≡ true)
    → ((i : ℕ) (row : OutboxRow) → w.publish i row.event ≡ none)
    → Distinct row_id outbox
    → all_tries outbox < fuel
    → (left : List OutboxRow) × (drain fuel w n outbox
        ≡ some (left, events (filter is_waiting outbox)))
      × (filter is_waiting left ≡ [])
drain_clears zero w n outbox locks takes d few = absurd (omega arith)
drain_clears (suc fuel) w n outbox locks takes d few =
    let b = w.is_free n in
    let r = relay_once b (w.publish n) (w.clock n) batch_size outbox in
    let all = filter is_waiting outbox in
    let (fetched, clear, handed) =
      relay_once_clears b (locks n) (w.publish n) (w.clock n) outbox (takes n) d in
    elim (Bool-cases (r.fetched == batch_size)) [
      | inl full ↦
          let falls =
            relay_once_falls b (w.publish n) (w.clock n) outbox d
              (is_same r.fetched batch_size full) in
          let (out, e, done) =
            drain_clears fuel w (suc n) r.relayed.outbox locks takes
              (relay_once-Distinct b (w.publish n) (w.clock n) batch_size outbox d)
              (omega (arith, falls, few)) in
          let told : events all ≡ r.relayed.handed ++ events (filter is_waiting r.relayed.outbox) =
            ap events (take-drop batch_size all)
            ∙ events-append (take batch_size all) (drop batch_size all)
            ∙ ap (λ es. es ++ events (drop batch_size all)) (sym handed)
            ∙ ap (λ rows. r.relayed.handed ++ events rows) (sym clear) in
          (
            out,
            drain_full fuel w n outbox full
                ∙ ap (after_batch r.relayed.handed) e
                ∙ ap (λ es. some (out, es)) (sym told),
            done,
          )
      | inr short ↦
          let (whole, nothing) =
            length-take_full batch_size all
              (λ e. is_other r.fetched batch_size short (fetched ∙ e)) in
          (
            r.relayed.outbox,
            drain_short fuel w n outbox short
                ∙ ap (λ es. some (r.relayed.outbox, es)) (handed ∙ ap events whole),
            clear ∙ nothing,
          )
    ]
