-- ===== src/Events/Tests.antt =====
-- The relay on two events, the first of which fails.
use ghost_merchant.Base.{true, ℕ, ◌≡◌, refl, none, some, List, [], ◌∷◌, false, arith, filter}
use Prim.{tt}
use ghost_merchant.Base.Text.{text}
use ghost_merchant.Base.Loop.{each}
use ghost_merchant.Db.{OutboxRow, Event}
use ghost_merchant.Events.Relay.{Publish, is_waiting, relay_once, relay_turn, after_publish, batch}
use ghost_merchant.Events.Relay.Drain.{Rounds, Drained, drain, drain-halts}
use ghost_merchant.Events.Relay.Cleared.{drain_clears}
use ghost_merchant.Events.Relay.Order.{row_of, relay_once_in_order}

abbrev row : ℕ → OutboxRow
row id = record {
  id = id;
  event = Event.payment_received 7 750 (text "AB12");
  created_at = 1;
  published_at = none;
  attempts = 0;
  last_error = none;
  failed = false;
}

relay_once_in_order_example :
    row_of 2 (relay_once true (λ e. some []) (λ r. 9) 100 (row 1 ∷ row 2 ∷ [])).relayed.outbox
    ≡ row_of 2 (row 1 ∷ row 2 ∷ [])
unfolding relay_once relay_turn after_publish batch each
relay_once_in_order_example =
    relay_once_in_order (λ e. some []) (λ r. 9) 100 (row 1 ∷ row 2 ∷ []) [] (row 1) (row 2 ∷ []) 2
      refl (omega arith, tt) (omega arith) tt
      (record (row 1) { attempts = 1; last_error = some [] }, refl, refl)

-- The first batch meets a subscriber that throws, and the lock is had each time.
abbrev rounds : (ℕ → Publish) → Rounds
rounds publish = record { is_free = λ i. true; publish = publish; clock = λ i r. 9 }

drain-halts_example :
    (left : Drained) × (drain 13 (rounds (λ i e. some [])) 0 (row 1 ∷ row 2 ∷ []) ≡ some left)
drain-halts_example =
    drain-halts 13 (rounds (λ i e. some [])) 0 (row 1 ∷ row 2 ∷ []) (((λ e. cc), tt), (tt, tt))
      (omega arith)

drain_clears_example :
    (left : List OutboxRow) × (drain 13 (rounds (λ i e. none)) 0 (row 1 ∷ row 2 ∷ [])
      ≡ some (
        left,
        Event.payment_received 7 750 (text "AB12")
            ∷ Event.payment_received 7 750 (text "AB12")
            ∷ [],
      ))
    × (filter is_waiting left ≡ [])
drain_clears_example =
    drain_clears 13 (rounds (λ i e. none)) 0 (row 1 ∷ row 2 ∷ []) (λ i. refl) (λ i r. refl)
      (((λ e. cc), tt), (tt, tt)) (omega arith)
