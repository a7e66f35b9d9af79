-- ===== src/Commands/Refunds.antt =====
-- The refund ledger (backend/src/commands/refunds.js); how a refund is opened stands in
-- Commands/Orders.antt.
pub mod Ledger
use ghost_merchant.Base.{
  ℕ, ◌+◌, Bool, true, false, Option, none, some, List, [], ◌∷◌, ◌++◌, not, if◌then◌else◌, take,
  length, filter, or_else,
}
use ghost_merchant.Base.Table.{find_by, update_by}
use ghost_merchant.Base.Text.{Text, text, trim}
use ghost_merchant.Db.{Db, Refund, RefundStatus, owed, settled, waived}
use ghost_merchant.Db.Tx.{
  Tx, Result, ok, err, Error, refund_error, not_found, ◌>>=◌, ◌>>◌, pure, gets, or_throw, throw_if,
  with_critical_transaction,
}
use ghost_merchant.Db.Rows.{is_owed}

abbrev pub find_refund : ℕ → List Refund → Option Refund
find_refund = find_by λ r. r.id

-- the column's own spelling
unfoldable pub status_text : RefundStatus → Text
status_text owed = text "owed"
status_text settled = text "settled"
status_text waived = text "waived"

unfoldable pub update_refund : ℕ → (Refund → Refund) → Tx Refund
update_refund id f db = elim (find_refund id db.refunds) [
  | none ↦ err not_found
  | some r ↦ ok (f r, record db { refunds = update_by (λ x. x.id) id f db.refunds })
]

-- What both ways to close a refund read first, without a lock on the row: it has to be there and
-- still be owed.
unfoldable pub read_owed : ℕ → Tx Refund
read_owed id = do
  found ← gets (λ db. find_refund id db.refunds)
  refund ← or_throw found (refund_error (text "refund not found") 404)
  throw_if (not (is_owed refund.status))
      (refund_error (text "this refund is already " ++ status_text refund.status) 409)
  pure refund

-- The transaction where no other comes between its reading and its update.
unfoldable pub close_refund : ℕ → (Refund → Refund) → Tx Refund
unfolding update_refund read_owed
close_refund id f = do refund ← read_owed id; update_refund refund.id f

-- `note ? String(note).slice(0, 500) : null`
abbrev clip_note : Option Text → Option Text
clip_note none = none
clip_note (some []) = none
clip_note (some (c ∷ s)) = some (take 500 (c ∷ s))

abbrev pub settlement : ℕ → Text → Option Text → Text → Refund → Refund
settlement now ref note settled_by r = record r {
  status = settled;
  settled_at = some now;
  settled_by = some settled_by;
  settlement_reference = some (take 120 ref);
  settlement_note = clip_note note;
}

-- `settleRefund`, once the reference is trimmed
unfoldable pub settle_with : ℕ → ℕ → Text → Option Text → Text → Db → Result Refund × Db
settle_with now id [] _ settled_by db = (
  err (
      refund_error (text "a telecom reference is required — it is what proves the money went back")
        400),
  db,
)
settle_with now id (c ∷ s) note settled_by db =
    with_critical_transaction (close_refund id (settlement now (c ∷ s) note settled_by)) db

-- `settleRefund`
unfoldable pub settle_refund : ℕ → ℕ → Option Text → Option Text → Text → Db → Result Refund × Db
settle_refund now id reference note settled_by db =
    settle_with now id (trim (or_else reference [])) note settled_by db

abbrev pub waiver : ℕ → Text → Text → Refund → Refund
waiver now reason settled_by r = record r {
  status = waived;
  settled_at = some now;
  settled_by = some settled_by;
  settlement_note = some (take 500 reason);
}

-- `waiveRefund`, once the reason is trimmed
unfoldable pub waive_with : ℕ → ℕ → Text → Text → Db → Result Refund × Db
waive_with now id [] settled_by db = (
  err (refund_error (text "say why this is being waived — the ledger has to explain itself") 400),
  db,
)
waive_with now id (c ∷ s) settled_by db =
    with_critical_transaction (close_refund id (waiver now (c ∷ s) settled_by)) db

-- `waiveRefund`
unfoldable pub waive_refund : ℕ → ℕ → Option Text → Text → Db → Result Refund × Db
waive_refund now id note settled_by db = waive_with now id (trim (or_else note [])) settled_by db

abbrev sum_amounts : List Refund → ℕ
sum_amounts [] = 0
sum_amounts (r ∷ rs) = r.amount + sum_amounts rs

-- `listOutstandingRefunds`: the queue, its length and its total. Rows stand in the order in which
-- they were created.
unfoldable pub list_outstanding_refunds : Db → List Refund × ℕ × ℕ
list_outstanding_refunds db =
    let queue = filter (λ r. is_owed r.status) db.refunds in
    (queue, length queue, sum_amounts queue)
