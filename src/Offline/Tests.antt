-- ===== src/Offline/Tests.antt =====
-- The queue on two writes of one order.
use ghost_merchant.Base.{false, ℕ, ◌≡◌, refl, none, List, [], ◌∷◌, arith}
use Prim.{tt}
use ghost_merchant.Base.Text.{text}
use ghost_merchant.Base.Loop.{each}
use ghost_merchant.Offline.Policy.{classify, backoff_ms, again}
use ghost_merchant.Offline.Queue.{Item, pending, World, flush, turn, settle, verdict}
use ghost_merchant.Offline.Queue.Order.{item_of_seq, There, flush_in_order, flush_keeps}

abbrev write : ℕ → Item
write seq = record {
  seq = seq;
  method = text "POST";
  path = text "/api/orders/7/deliver";
  body = none;
  content_type = text "application/json";
  label = text "Mark delivered";
  order_id = none;
  transition_to = none;
  state = pending;
  attempts = 0;
  next_attempt_at = 0;
  queued_at = 1;
  error = none;
}

abbrev items : List Item
items = write 1 ∷ write 2 ∷ []

-- no answer comes
abbrev offline : World
offline = record { reached = λ i. 9; answered = λ i. 10; send = λ i. none }

flush_in_order_example : item_of_seq 2 (flush false offline items).items ≡ item_of_seq 2 items
unfolding flush each turn settle verdict classify again backoff_ms
flush_in_order_example =
    flush_in_order offline items [] (write 1) (write 2 ∷ []) 2 refl (omega arith, tt) (omega arith)
      tt (record (write 1) { attempts = 1; next_attempt_at = 1010 }, refl, refl)

flush_keeps_example : There offline 2 (item_of_seq 2 (flush false offline items).items)
flush_keeps_example = flush_keeps false offline items 2 (write 2) refl
