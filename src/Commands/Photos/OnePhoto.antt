-- ===== src/Commands/Photos/OnePhoto.antt =====
-- An order has one photo of a kind.
use ghost_merchant.Base.{◌≡◌, true, some, List, filter, all}
use ghost_merchant.Base.Text.{Text, text_eq}
use ghost_merchant.Db.{Db, Photo}
use ghost_merchant.Commands.Photos.{find_photo, Upload, object_key, is_of}

-- The photo is on record under its key, and no photo of its order and kind has another.
abbrev pub IsTheOne : Text → Upload → Photo → List Photo → Type 0
IsTheOne key u q ps =
    (find_photo key ps ≡ some q)
    × (all (λ p. text_eq p.object_key key) (filter (is_of u.order_id u.kind) ps) ≡ true)
