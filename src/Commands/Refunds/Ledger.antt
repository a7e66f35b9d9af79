-- ===== src/Commands/Refunds/Ledger.antt =====
-- What closing a refund does to the ledger.
use ghost_merchant.Base.{
  ℕ, ◌+◌, ◌≡◌, ◌⊎◌, refl, sym, subst, ap, ◌∙◌, true, false, Option, none, some, List, [], ◌∷◌, ◌++◌,
  arith, if◌then◌else◌, filter, or_else, Option-cases, inl, inr,
}
use ghost_merchant.Base.Table.{update_by, find_by_key, find_by-update_by}
use ghost_merchant.Base.Text.{Text, text, trim}
use ghost_merchant.Db.{Db, Refund}
use ghost_merchant.Db.Tx.{
  Result, ok, err, Error, Refused, refund_error, critical, with_critical_transaction,
  with_critical_transaction-ok, with_critical_transaction-err,
}
use ghost_merchant.Db.Rows.{is_owed}
use ghost_merchant.Commands.Refunds.{
  find_refund, settle_refund, waive_refund, settle_with, waive_with, settlement, waiver, read_owed,
  close_refund, update_refund, status_text, sum_amounts, list_outstanding_refunds,
}

-- What the queue of open refunds adds up to.
abbrev pub outstanding : Db → ℕ
outstanding db = (list_outstanding_refunds db).2

total_owed : List Refund → ℕ
total_owed rs = sum_amounts (filter (λ r. is_owed r.status) rs)

total_owed-update :
    (id : ℕ) (f : Refund → Refund) (rs : List Refund) (r : Refund)
    → find_refund id rs ≡ some r
    → is_owed r.status ≡ true
    → is_owed (f r).status ≡ false
    → total_owed (update_by (λ x. x.id) id f rs) + r.amount ≡ total_owed rs
unfolding total_owed
total_owed-update id f [] r h o c = cc
total_owed-update id f (x ∷ rs) r h o c = ground (arith, total_owed-update id f rs r)

-- Closing, in one equation.
close_refund_lem :
    (id : ℕ) (f : Refund → Refund) (db : Db) (b : Refund)
    → find_refund id db.refunds ≡ some b
    → close_refund id f db ≡ (
        if is_owed b.status
        then ok (f b, record db { refunds = update_by (λ x. x.id) id f db.refunds })
        else err (refund_error (text "this refund is already " ++ status_text b.status) 409))
unfolding close_refund update_refund read_owed
close_refund_lem id f db b found = ground (arith, find_by_key (λ x. x.id) id db.refunds b found)

close_refund_missing :
    (id : ℕ) (f : Refund → Refund) (db : Db)
    → find_refund id db.refunds ≡ none
    → close_refund id f db ≡ err (refund_error (text "refund not found") 404)
unfolding close_refund read_owed
close_refund_missing id f db missing = ground arith

-- A closing that goes through found the refund owed; the queue falls by its amount, and it stands
-- closed afterwards.
record Closes (id : ℕ) (f : Refund → Refund) (r : Refund) (db db' : Db) : Type 0 where
  falls : outstanding db' + r.amount ≡ outstanding db
  row : find_refund id db'.refunds ≡ some r

close_refund-Closes :
    (id : ℕ) (f : Refund → Refund) (db db' : Db) (r : Refund)
    → ((x : Refund)
        → ((f x).id ≡ x.id) × ((f x).amount ≡ x.amount) × (is_owed (f x).status ≡ false))
    → close_refund id f db ≡ ok (r, db')
    → Closes id f r db db' × (is_owed r.status ≡ false)
unfolding total_owed list_outstanding_refunds
close_refund-Closes id f db db' r keeps h = elim (Option-cases (find_refund id db.refunds)) [
  | inl missing ↦ cc (close_refund_missing id f db missing)
  | inr (b, found) ↦ ground (
    arith,
    close_refund_lem id f db b found,
    keeps b,
    total_owed-update id f db.refunds b found,
    find_by-update_by (λ x. x.id) id id f db.refunds (λ x. (keeps x).0),
  )
]

-- The two ways to close a refund, with their arguments.
pub data Closing : Type 0 where
  settles : (now : ℕ) (reference note : Option Text) (by : Text) → Closing
  waives : (now : ℕ) (note : Option Text) (by : Text) → Closing

abbrev pub close : Closing → ℕ → Db → Result Refund × Db
close (settles now reference note by) id db = settle_refund now id reference note by db
close (waives now note by) id db = waive_refund now id note by db

-- What a closing writes: the id and the amount stay, and the refund is owed no more.
abbrev IsClosing : (Refund → Refund) → Type 0
IsClosing f =
    (x : Refund) → ((f x).id ≡ x.id) × ((f x).amount ≡ x.amount) × (is_owed (f x).status ≡ false)

-- An early return, or one `close_refund`.
abbrev Closed : Result Refund × Db → ℕ → Db → Type 0
Closed p id db =
    Refused p db
    ⊎ ((f : Refund → Refund) × (p ≡ with_critical_transaction (close_refund id f) db) × IsClosing f)

settle_with-Closed :
    (now id : ℕ) (ref : Text) (why : Option Text) (by : Text) (db : Db)
    → Closed (settle_with now id ref why by db) id db
unfolding settle_with
settle_with-Closed now id [] why by db = inl (refl, _, refl)
settle_with-Closed now id (c ∷ s) why by db =
    inr (settlement now (c ∷ s) why by, refl, λ x. (refl, refl, refl))

waive_with-Closed :
    (now id : ℕ) (reason by : Text) (db : Db) → Closed (waive_with now id reason by db) id db
unfolding waive_with
waive_with-Closed now id [] by db = inl (refl, _, refl)
waive_with-Closed now id (c ∷ s) by db = inr (waiver now (c ∷ s) by, refl, λ x. (refl, refl, refl))

close-Closed : (c : Closing) (id : ℕ) (db : Db) → Closed (close c id db) id db
unfolding settle_refund waive_refund
close-Closed (settles now reference why by) id db =
    settle_with-Closed now id (trim (or_else reference [])) why by db
close-Closed (waives now why by) id db = waive_with-Closed now id (trim (or_else why [])) by db

critical-Refused :
    (id : ℕ) (f : Refund → Refund) (db : Db) (r : Refund)
    → find_refund id db.refunds ≡ some r
    → is_owed r.status ≡ false
    → Refused (with_critical_transaction (close_refund id f) db) db
critical-Refused id f db r found gone =
    let x : Error = refund_error (text "this refund is already " ++ status_text r.status) 409 in
    let shut : close_refund id f db ≡ err x = close_refund_lem id f db r found ∙ rw gone in
    let e = with_critical_transaction-err (close_refund id f) db x shut in
    (ap (λ p. p.1) e, critical x, ap (λ p. p.0) e)

-- A refund that is closed stays as it is: both ways to close it are refused, and change nothing.
pub close-closed-Refused :
    (c : Closing) (id : ℕ) (db : Db) (r : Refund)
    → find_refund id db.refunds ≡ some r
    → is_owed r.status ≡ false
    → Refused (close c id db) db
close-closed-Refused c id db r found gone = elim (close-Closed c id db) [
  | inl refused ↦ refused
  | inr (f, e, k) ↦ subst (λ p. Refused p db) (sym e) (critical-Refused id f db r found gone)
]

-- An update finds the row, whatever was read of it before.
update_refund-over :
    (id : ℕ) (g : Refund → Refund) (db : Db) (r : Refund)
    → find_refund id db.refunds ≡ some r
    → update_refund id g db
      ≡ ok (g r, record db { refunds = update_by (λ x. x.id) id g db.refunds })
unfolding update_refund
update_refund-over id g db r found = ground arith

-- To close a refund takes exactly its amount off what is outstanding. A further closing that begins
-- after it, whichever the two are, is refused and changes nothing. There is no lock on the row:
-- the update of a closing that had read the refund before, whatever it writes, goes through and
-- writes over what the first one wrote.
pub close_once :
    (c d : Closing) (g : Refund → Refund) (id : ℕ) (db db' : Db) (r : Refund)
    → close c id db ≡ (ok r, db')
    → (outstanding db' + r.amount ≡ outstanding db)
      × Refused (close d id db') db'
      × (update_refund id g db'
          ≡ ok (g r, record db' { refunds = update_by (λ x. x.id) id g db'.refunds }))
close_once c d g id db db' r h = elim (close-Closed c id db) [
  | inl (_, e, q) ↦ absurd (ok_ne_err (ap (λ p. p.0) (sym h) ∙ q))
  | inr (f, e, k) ↦
      let (done, gone) =
        close_refund-Closes id f db db' r k
          (with_critical_transaction-ok (close_refund id f) db r db' (sym e ∙ h)) in
      (
        done.falls,
        close-closed-Refused d id db' r done.row gone,
        update_refund-over id g db' r done.row,
      )
]
  where
    ok_ne_err : {e : Error} → ok r ≡ err e → ⊥
    ok_ne_err e = cc
