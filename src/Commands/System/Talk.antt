-- ===== src/Commands/System/Talk.antt =====
-- Messages and photos, as steps: they change no order, no payment and no refund.
use ghost_merchant.Base.{
  ℕ, ◌≡◌, refl, sym, subst, Bool, true, false, Option, none, some, ◌==◌, arith, Option-cases, inl,
  inr, if◌then◌else◌,
}
use ghost_merchant.Base.Text.{Text, text}
use ghost_merchant.Domain.Ids.{is_uuid}
use ghost_merchant.Db.{Db, Photo, Message}
use ghost_merchant.Db.Tx.{Result, ok, err, Error, with_transaction}
use ghost_merchant.Db.Rows.{order_of}
use ghost_merchant.Commands.Orders.{insert_message, post_message}
use ghost_merchant.Commands.Photos.{
  Upload, object_key, find_photo, upsert_photo, remove_stale, photo_note, after_post, finish_photo,
  store_photo, save_photo,
}
use ghost_merchant.Commands.System.Steps.{
  still, Steps, stay, Steps-of_Does, Steps-trans, Still, Still-of_tables,
}
use ghost_merchant.Commands.System.Calls.{Walks, with_transaction-Steps}

insert_message-Walks :
    (now id : ℕ) (sender body : Text) (client : Option ℕ)
    → Walks (insert_message now id sender body client)
unfolding insert_message
insert_message-Walks now id sender body client db db' m e =
    Steps-of_Does
      (still (Still-of_tables (ground arith) (ground arith) (ground arith) (ground arith)))

-- A call that is refused before its transaction.
guarded-Steps :
    {A : Type 0} (b : Bool) (p q : Result A × Db) (db : Db)
    → Steps db p.1
    → q.1 ≡ db
    → let r : Result A × Db = if b then p else q in Steps db r.1
guarded-Steps true p q db h e = h
guarded-Steps false p q db h e = subst (Steps db) (sym e) stay

pub post_message-Steps :
    (uuid : Text → ℕ) (now id : ℕ) (sender body : Text) (client : Option Text) (db : Db)
    → Steps db (post_message uuid now id sender body client db).1
unfolding post_message
post_message-Steps uuid now id sender body none db =
    with_transaction-Steps (insert_message now id sender body none)
      (insert_message-Walks now id sender body none) db
post_message-Steps uuid now id sender body (some s) db =
    guarded-Steps (is_uuid s)
      (with_transaction (insert_message now id sender body (some (uuid s))) db) _ db
      (with_transaction-Steps (insert_message now id sender body (some (uuid s)))
        (insert_message-Walks now id sender body (some (uuid s))) db)
      refl

upsert_photo-Still :
    (now : ℕ) (key : Text) (u : Upload) (db db' : Db) (p : Photo)
    → upsert_photo now key u db ≡ ok (p, db')
    → Still db db'
unfolding upsert_photo
upsert_photo-Still now key u db db' p h = elim (Option-cases (find_photo key db.photos)) [
  | inl missing ↦ elim (Option-cases (order_of u.order_id db)) [
    | inl no_order ↦ absurd (ground arith)
    | inr (o, there) ↦ Still-of_tables (ground arith) (ground arith) (ground arith) (ground arith)
  ]
  | inr (old, found) ↦ Still-of_tables (ground arith) (ground arith) (ground arith) (ground arith)
]

after_post-db : (p : Photo) (r : Result (Message × Bool) × Db) → (after_post p r).1 ≡ r.1
unfolding after_post
after_post-db p (ok m, db) = refl
after_post-db p (err e, db) = refl

finish_photo-Steps :
    (uuid : Text → ℕ) (deletes : Text → Bool) (now : ℕ) (key : Text) (u : Upload)
    (r : Result (Photo × Db)) (db : Db)
    → ((p : Photo) (db' : Db) → r ≡ ok (p, db') → Still db db')
    → Steps db (finish_photo uuid deletes now key u r db).1
unfolding finish_photo remove_stale
finish_photo-Steps uuid deletes now key u (err e) db quiet = stay
finish_photo-Steps uuid deletes now key u (ok (p, db')) db quiet =
    let swept = remove_stale deletes key u db' in
    let posted = post_message uuid now u.order_id (text "system") (photo_note u.kind) none swept in
    subst (Steps db) (sym (after_post-db p posted)) (
      Steps-trans (Steps-of_Does (still (quiet p db' refl))) (
        Steps-trans (Steps-of_Does (still (Still-of_tables refl refl refl refl)))
          (post_message-Steps uuid now u.order_id (text "system") (photo_note u.kind) none swept)))

store_photo-Steps :
    (uuid : Text → ℕ) (deletes : Text → Bool) (now : ℕ) (key : Text) (u : Upload)
    (put : Option Error) (db : Db)
    → Steps db (store_photo uuid deletes now key u put db).1
unfolding store_photo
store_photo-Steps uuid deletes now key u (some e) db = stay
store_photo-Steps uuid deletes now key u none db =
    finish_photo-Steps uuid deletes now key u (upsert_photo now key u db) db
      (λ p db' e. upsert_photo-Still now key u db db' p e)

pub save_photo-Steps :
    (uuid : Text → ℕ) (spell : ℕ → Text) (deletes : Text → Bool) (now : ℕ) (put : Option Error)
    (u : Upload) (db : Db)
    → Steps db (save_photo uuid spell deletes now put u db).1
unfolding save_photo
save_photo-Steps uuid spell deletes now put u db =
    pick _ _ (u.size == 0) (store_photo-Steps uuid deletes now (object_key spell u) u put db)
  where
    pick :
        (e : Error) (q : Result Photo × Db) (b : Bool)
        → Steps db q.1
        → let r : Result Photo × Db = if b then (err e, db) else q in Steps db r.1
    pick e q true h = stay
    pick e q false h = h
