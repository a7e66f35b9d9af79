-- ===== src/Commands/Proofs/Dispute.antt =====
-- `markProofReviewed` and `disputeDelivery` of backend/src/commands/proofs.js.
use ghost_merchant.Base.{
  ℕ, ◌-◌, ◌*◌, Bool, true, false, Option, none, some, [], ◌∷◌, ◌++◌, ltb, if◌then◌else◌, any,
}
use ghost_merchant.Base.Text.{Text, text}
use ghost_merchant.Domain.Evidence.{clean_reason, dispute_window_hours}
use ghost_merchant.Db.{
  Db, Proof, Step, delivery, Flag, no_code, no_gps, far_from_pin, customer_disputed,
}
use ghost_merchant.Db.Tx.{
  Tx, Result, ok, err, proof_error, ◌>>=◌, ◌>>◌, pure, gets, or_throw, throw_if, modify,
  with_transaction,
}
use ghost_merchant.Db.Rows.{find_proof, update_proof}
use ghost_merchant.Commands.Orders.{insert_message}

abbrev is_unreviewed : Option Proof → Bool
is_unreviewed none = false
is_unreviewed (some p) = elim p.reviewed_at [ none ↦ true | some t ↦ false ]

-- `markProofReviewed`
unfoldable pub mark_proof_reviewed : ℕ → ℕ → Step → Text → Db → Result (Unit {0}) × Db
mark_proof_reviewed now order_id step actor db =
    if is_unreviewed (find_proof order_id step db.proofs)
    then (
      ok tt,
      record db {
        proofs =
            update_proof order_id step
              (λ p. record p { reviewed_by = some actor; reviewed_at = some now }) db.proofs;
      },
    )
    else (err (proof_error (text "nothing to review on this order") 404 none), db)

abbrev pub is_disputed : Flag → Bool
is_disputed customer_disputed = true
is_disputed no_code = false
is_disputed no_gps = false
is_disputed far_from_pin = false

abbrev pub dispute_flagged : Proof → Proof
dispute_flagged p = record p {
  flags = p.flags ++ customer_disputed ∷ [];
  reviewed_at = none;
  reviewed_by = none;
}

-- what the customer said, quoted
unfoldable pub quoted : Option Text → Text
quoted none = []
quoted (some said) = text " “" ++ said ++ text "”"

-- A delivery that is in dispute already is left as it is.
unfoldable pub flag_dispute : ℕ → ℕ → Option Text → Bool → Tx (Unit {0})
unfolding quoted
flag_dispute now order_id said true = pure tt
flag_dispute now order_id said false = do
  modify (λ db. record db { proofs = update_proof order_id delivery dispute_flagged db.proofs })
  insert_message now order_id (text "system")
      (text "Customer says they did not get this order."
        ++ quoted (clean_reason said)
        ++ text " An operator will call.")
      none
  pure tt

unfoldable pub dispute_tx : ℕ → ℕ → Option Text → Tx (Unit {0})
unfolding flag_dispute
dispute_tx now order_id said = do
  found ← gets (λ db. find_proof order_id delivery db.proofs)
  proof ← or_throw found (proof_error (text "this order has not been delivered") 409 none)
  throw_if (ltb (dispute_window_hours * 3600 * 1000) (now - proof.created_at))
      (proof_error (text "it is too late to report this order — contact us directly") 409 none)
  flag_dispute now order_id said (any is_disputed proof.flags)

-- `disputeDelivery`
unfoldable pub dispute_delivery : ℕ → ℕ → Option Text → Db → Result (Unit {0}) × Db
unfolding dispute_tx
dispute_delivery now order_id said = with_transaction (dispute_tx now order_id said)
