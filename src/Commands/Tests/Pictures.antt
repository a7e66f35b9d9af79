-- ===== src/Commands/Tests/Pictures.antt =====
-- A proof photo that is taken again in another format.
use ghost_merchant.Commands.Tests.Sample.{shop}
use ghost_merchant.Base.{ℕ, true, none, some, [], ◌∷◌}
use ghost_merchant.Base.Text.{Text, text}
use ghost_merchant.Domain.StateMachine.{dispatched}
use ghost_merchant.Db.{Db, Photo, pickup_proof}
use ghost_merchant.Db.Tx.{Result, ok, err}
use ghost_merchant.Commands.Photos.{Upload, object_key, save_photo}

abbrev upload : Upload
upload = record {
  order_id = 7;
  kind = pickup_proof;
  size = 100;
  content_type = some (text "image/png");
  uploaded_by = none;
}

abbrev jpeg : Photo
jpeg = record {
  id = 1;
  order_id = 7;
  kind = pickup_proof;
  object_key = 106 ∷ [];
  content_type = none;
  uploaded_by = [];
  created_at = 1;
}

abbrev before : Db
before = record (shop dispatched [] [] 0) { photos = jpeg ∷ [] }

abbrev spell : ℕ → Text
spell n = []

abbrev saved : Result Photo × Db
saved = save_photo (λ s. 7) spell (λ k. true) 9 none upload before

abbrev photo_of : Result Photo → Photo
photo_of r = elim r [ ok p ↦ p | err e ↦ jpeg ]
