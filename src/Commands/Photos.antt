-- ===== src/Commands/Photos.antt =====
-- Photos of an order (backend/src/commands/photos.js). How a UUID is spelled, what the storage throws
-- and which deletions it refuses are parameters.
pub mod OnePhoto
use ghost_merchant.Base.{
  ℕ, suc, Bool, true, false, not, ◌&&◌, Option, none, some, or_else, List, [], ◌∷◌, ◌++◌, ◌==◌,
  filter, if◌then◌else◌,
}
use ghost_merchant.Base.Text.{Text, text, text_eq}
use ghost_merchant.Db.{Db, Photo, PhotoKind, order_ref, pickup_proof, delivery_proof, Message}
use ghost_merchant.Db.Tx.{Result, ok, err, Error, plain, foreign_key_violation}
use ghost_merchant.Db.Rows.{order_of, same_kind}
use ghost_merchant.Commands.Orders.{post_message}

-- `EXT[contentType] || 'bin'`
unfoldable pub extension : Option Text → Text
extension none = text "bin"
extension (some mime) =
    if text_eq mime (text "image/jpeg")
    then text "jpg"
    else if text_eq mime (text "image/png")
    then text "png"
    else if text_eq mime (text "image/webp")
    then text "webp"
    else if text_eq mime (text "image/svg+xml")
    then text "svg"
    else if text_eq mime (text "image/heic")
    then text "heic"
    else text "bin"

unfoldable pub kind_name : PhotoKind → Text
kind_name order_ref = text "order_ref"
kind_name pickup_proof = text "pickup_proof"
kind_name delivery_proof = text "delivery_proof"

-- `NOTE`
unfoldable pub photo_note : PhotoKind → Text
photo_note order_ref = text "📷 Customer added a reference photo."
photo_note pickup_proof = text "🛍" ++ 0xFE0F ∷ text " Driver photographed the items."
photo_note delivery_proof = text "📦 Driver added a delivery-proof photo."

-- The argument of `savePhoto`, with the length of the body for its bytes; an empty string is `none`.
pub record Upload : Type 0 where
  pub order_id : ℕ
  pub kind : PhotoKind
  pub size : ℕ
  pub content_type : Option Text
  pub uploaded_by : Option Text

-- `orders/<order>/<kind>.<ext>`
unfoldable pub object_key : (ℕ → Text) → Upload → Text
object_key spell u =
    text "orders/"
    ++ spell u.order_id
    ++ text "/"
    ++ kind_name u.kind
    ++ text "."
    ++ extension u.content_type

abbrev pub find_photo : Text → List Photo → Option Photo
find_photo key [] = none
find_photo key (p ∷ ps) = if text_eq p.object_key key then some p else find_photo key ps

abbrev pub update_photo : Text → (Photo → Photo) → List Photo → List Photo
update_photo key f [] = []
update_photo key f (p ∷ ps) =
    if text_eq p.object_key key then f p ∷ ps else p ∷ update_photo key f ps

abbrev pub refreshed : ℕ → Upload → Photo → Photo
refreshed now u p = record p {
  content_type = u.content_type;
  uploaded_by = or_else u.uploaded_by (text "user");
  created_at = now;
}

abbrev pub photo_row : ℕ → Text → Upload → ℕ → Photo
photo_row now key u id = record {
  id = id;
  order_id = u.order_id;
  kind = u.kind;
  object_key = key;
  content_type = u.content_type;
  uploaded_by = or_else u.uploaded_by (text "user");
  created_at = now;
}

-- the upsert by the key; a new row needs its order
unfoldable pub upsert_photo : ℕ → Text → Upload → Db → Result (Photo × Db)
upsert_photo now key u db = elim (find_photo key db.photos) [
  | some p ↦
      ok (refreshed now u p, record db { photos = update_photo key (refreshed now u) db.photos })
  | none ↦ elim (order_of u.order_id db) [
    | none ↦ err foreign_key_violation
    | some o ↦ ok (
      photo_row now key u db.next_id,
      record db {
        photos = db.photos ++ photo_row now key u db.next_id ∷ [];
        next_id = suc db.next_id;
      },
    )
  ]
]

abbrev pub is_of : ℕ → PhotoKind → Photo → Bool
is_of id kind p = p.order_id == id && same_kind p.kind kind

-- a copy under another key
abbrev pub is_stale : Text → Upload → Photo → Bool
is_stale key u p = is_of u.order_id u.kind p && not (text_eq p.object_key key)

-- The loop over the stale rows: a row goes once its object is gone.
unfoldable pub remove_stale : (Text → Bool) → Text → Upload → Db → Db
remove_stale deletes key u db = record db {
  photos = filter (λ p. not (is_stale key u p && deletes p.object_key)) db.photos;
}

unfoldable pub after_post : Photo → Result (Message × Bool) × Db → Result Photo × Db
after_post p (ok m, db) = (ok p, db)
after_post p (err e, db) = (err e, db)

unfoldable pub finish_photo :
    (Text → ℕ) → (Text → Bool) → ℕ → Text → Upload → Result (Photo × Db) → Db → Result Photo × Db
finish_photo uuid deletes now key u (err e) db = (err e, db)
finish_photo uuid deletes now key u (ok (p, db')) db = after_post p (
    post_message uuid now u.order_id (text "system") (photo_note u.kind) none
      (remove_stale deletes key u db'))

unfoldable pub store_photo :
    (Text → ℕ) → (Text → Bool) → ℕ → Text → Upload → Option Error → Db → Result Photo × Db
store_photo uuid deletes now key u (some e) db = (err e, db)
store_photo uuid deletes now key u none db =
    finish_photo uuid deletes now key u (upsert_photo now key u db) db

-- `savePhoto`; `put` is what `putObject` throws
unfoldable pub save_photo :
    (Text → ℕ) → (ℕ → Text) → (Text → Bool) → ℕ → Option Error → Upload → Db → Result Photo × Db
save_photo uuid spell deletes now put u db =
    if u.size == 0
    then (err (plain (text "empty photo body")), db)
    else store_photo uuid deletes now (object_key spell u) u put db
