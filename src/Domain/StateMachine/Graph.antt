-- ===== src/Domain/StateMachine/Graph.antt =====
-- The transition table as a graph: its paths, its ends and how long a life can be.
use ghost_merchant.Base.{ℕ, suc, ◌+◌, ◌≤◌, ◌<◌, ◌≡◌, true, false, arith}
use ghost_merchant.Domain.StateMachine.{
  Status, pending_payment, paid_unassigned, dispatched, in_transit, delivered, failed_refund,
  can_transition,
}

-- A life of an order, one legal transition after another, counted.
pub data Life (from : Status) : ℕ → Status → Type 0 where
  here : Life from 0 from
  next : {n : ℕ} {s t : Status} → Life from n s → can_transition s t ≡ true → Life from (suc n) t

-- How many transitions can still follow.
abbrev pub remaining : Status → ℕ
remaining pending_payment = 4
remaining paid_unassigned = 3
remaining dispatched = 2
remaining in_transit = 1
remaining delivered = 0
remaining failed_refund = 0

remaining_falls : (s t : Status) → can_transition s t ≡ true → remaining t < remaining s
unfolding can_transition
remaining_falls s t h = ground arith

-- A life is finite: from any status, at most four transitions follow, and fewer the further the
-- order is.
pub length_bounded : {s t : Status} {n : ℕ} → Life s n t → n + remaining t ≤ remaining s
length_bounded here = omega arith
length_bounded (next {s = s} {t = t} l h) = omega (arith, length_bounded l, remaining_falls s t h)

-- The steps that a delivered order has taken cannot be fewer than the stages between.
abbrev stage : Status → ℕ
stage pending_payment = 0
stage paid_unassigned = 1
stage dispatched = 2
stage in_transit = 3
stage delivered = 4
stage failed_refund = 0

stage_step : (s t : Status) → can_transition s t ≡ true → stage t ≤ suc (stage s)
unfolding can_transition
stage_step s t h = ground arith

stage_bounded : {s t : Status} {n : ℕ} → Life s n t → stage t ≤ stage s + n
stage_bounded here = omega arith
stage_bounded (next {s = s} {t = t} l h) = omega (arith, stage_bounded l, stage_step s t h)

-- A new order that ends up delivered has taken exactly four transitions: no stage is skipped
-- and none is repeated.
pub delivered_in_four : {n : ℕ} → Life pending_payment n delivered → n ≡ 4
delivered_in_four l = omega (arith, length_bounded l, stage_bounded l)

-- Nothing follows a delivery or a failure.
pub terminal_absorbs :
    (t : Status) → (can_transition delivered t ≡ false) × (can_transition failed_refund t ≡ false)
unfolding can_transition
terminal_absorbs t = ground arith
