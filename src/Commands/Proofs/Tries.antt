-- ===== src/Commands/Proofs/Tries.antt =====
-- A wrong code is counted, and the fifth is the last.
use ghost_merchant.Base.{ℕ, suc, ◌-◌, ◌<◌, ◌≤◌, ◌≡◌, ap, ◌∙◌, true, false, Option, some, ◌∷◌, arith}
use ghost_merchant.Base.Table.{find_by-update_by}
use ghost_merchant.Base.Text.{Text}
use ghost_merchant.Domain.StateMachine.{in_transit}
use ghost_merchant.Domain.Evidence.{
  Fix, RawFix, parse_fix, is_handoff_code, handoff_matches, handoff_max_attempts,
}
use ghost_merchant.Db.{Db, Order, Handoff}
use ghost_merchant.Db.Tx.{ok, err, proof_error, with_critical_transaction_run}
use ghost_merchant.Db.Rows.{order_of, find_handoff, update_handoff}
use ghost_merchant.Commands.Proofs.{
  Distance, Outcome, wrong, locked, by_code, lock_order_at, try_code, use_evidence, delivery_tx,
  confirm_delivery, report, deliver_with, evidence_of,
}

-- The order is out for delivery, and a well-formed code is given.
pub record Trying (id : ℕ) (before : Order) (h : Handoff) (c : ℕ) (s : Text) (db : Db)
    : Type 0 where
  pub found : order_of id db ≡ some before
  pub out : before.status ≡ in_transit
  pub there : find_handoff id db.handoffs ≡ some h
  pub shaped : is_handoff_code (c ∷ s) ≡ true

delivery_tx-try :
    (dist : Distance) (now id : ℕ) (actor : Text) (fix : Option Fix) (before : Order) (h : Handoff)
    (given : Text) (db : Db)
    → order_of id db ≡ some before
    → before.status ≡ in_transit
    → find_handoff id db.handoffs ≡ some h
    → delivery_tx dist now id actor fix (by_code given) db
      ≡ try_code dist now id actor fix before given h db
unfolding delivery_tx lock_order_at use_evidence
delivery_tx-try dist now id actor fix before h given db found out there = ground arith

try_code-locked :
    (dist : Distance) (now id : ℕ) (actor : Text) (fix : Option Fix) (before : Order) (h : Handoff)
    (given : Text) (db : Db)
    → handoff_max_attempts ≤ h.attempts
    → try_code dist now id actor fix before given h db ≡ ok (locked, db)
unfolding try_code
try_code-locked dist now id actor fix before h given db full = ground arith

-- the tables after a wrong try
abbrev pub counted : ℕ → Db → Db
counted id db = update_handoff id (λ x. record x { attempts = suc x.attempts }) db

try_code-wrong :
    (dist : Distance) (now id : ℕ) (actor : Text) (fix : Option Fix) (before : Order) (h : Handoff)
    (given : Text) (db : Db)
    → h.attempts < handoff_max_attempts
    → handoff_matches h.code given ≡ false
    → try_code dist now id actor fix before given h db
      ≡ ok (wrong (handoff_max_attempts - h.attempts - 1), counted id db)
unfolding try_code
try_code-wrong dist now id actor fix before h given db room miss = ground arith

confirm_delivery-try :
    (dist : Distance) (now id : ℕ) (actor : Text) (c : ℕ) (s : Text) (reason : Option Text)
    (fix : Option RawFix) (before : Order) (h : Handoff) (db db' : Db) (r : Outcome)
    → Trying id before h c s db
    → try_code dist now id actor (parse_fix fix) before (c ∷ s) h db ≡ ok (r, db')
    → confirm_delivery dist now id actor (some (c ∷ s)) reason fix db ≡ report (ok r, db')
unfolding confirm_delivery deliver_with evidence_of
confirm_delivery-try dist now id actor c s reason fix before h db db' r t e = rw t.shaped (
    ap report (
      with_critical_transaction_run
        (delivery_tx dist now id actor (parse_fix fix) (by_code (c ∷ s))) db r db'
        (delivery_tx-try dist now id actor (parse_fix fix) before h (c ∷ s) db t.found t.out t.there
          ∙ e)))

-- A handoff with no try left refuses every code that is shaped like one, the right one too: the
-- answer is 423 and the tables stay as they are, so guessing on cannot finish the delivery.
pub confirm_delivery_locked :
    (dist : Distance) (now id : ℕ) (actor : Text) (c : ℕ) (s : Text) (reason : Option Text)
    (fix : Option RawFix) (before : Order) (h : Handoff) (db : Db)
    → Trying id before h c s db
    → handoff_max_attempts ≤ h.attempts
    → (why : Text) × (confirm_delivery dist now id actor (some (c ∷ s)) reason fix db
        ≡ (err (proof_error why 423 (some 0)), db))
unfolding report
confirm_delivery_locked dist now id actor c s reason fix before h db t full = (
  _,
  confirm_delivery-try dist now id actor c s reason fix before h db db locked t
      (try_code-locked dist now id actor (parse_fix fix) before h (c ∷ s) db full),
)

-- A wrong code with a try left is refused with 422 and the number of tries that remain, and the
-- failure is on record: the handoff's count has grown by one, and nothing else has changed.
pub confirm_delivery-counted :
    (dist : Distance) (now id : ℕ) (actor : Text) (c : ℕ) (s : Text) (reason : Option Text)
    (fix : Option RawFix) (before : Order) (h : Handoff) (db : Db)
    → Trying id before h c s db
    → h.attempts < handoff_max_attempts
    → handoff_matches h.code (c ∷ s) ≡ false
    → (why : Text) × (confirm_delivery dist now id actor (some (c ∷ s)) reason fix db
        ≡ (err (proof_error why 422 (some (handoff_max_attempts - h.attempts - 1))), counted id db))
      × (find_handoff id (counted id db).handoffs ≡ some (record h { attempts = suc h.attempts }))
unfolding report
confirm_delivery-counted dist now id actor c s reason fix before h db t room miss = (
  _,
  confirm_delivery-try dist now id actor c s reason fix before h db (counted id db) _ t
      (try_code-wrong dist now id actor (parse_fix fix) before h (c ∷ s) db room miss),
  ground (
    arith,
    t.there,
    find_by-update_by (λ x. x.order_id) id id (λ x. record x { attempts = suc x.attempts })
        db.handoffs,
  ),
)
