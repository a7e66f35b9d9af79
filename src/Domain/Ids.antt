-- ===== src/Domain/Ids.antt =====
-- Order identifiers (backend/src/domain/ids.js).
use ghost_merchant.Base.{ℕ, suc, zero, Bool, true, false, List, [], ◌∷◌, ◌&&◌, ◌||◌, leb, ◌==◌}
use ghost_merchant.Base.Text.{Text, is_digit}

-- `[0-9a-f]` under the flag `i`
is_hex : ℕ → Bool
is_hex c = is_digit c || (leb b'a' c && leb c b'f') || (leb b'A' c && leb c b'F')

-- `[89ab]` under the flag `i`
is_variant : ℕ → Bool
is_variant c = c == b'8' || c == b'9' || c == b'a' || c == b'b' || c == b'A' || c == b'B'

-- `[1-8]`
is_version : ℕ → Bool
is_version c = leb b'1' c && leb c b'8'

-- One character for each class of a regular expression without repetitions that vary.
matches_classes : List (ℕ → Bool) → Text → Bool
matches_classes [] [] = true
matches_classes (p ∷ ps) (c ∷ s) = p c && matches_classes ps s
matches_classes _ _ = false

abbrev hexes : ℕ → List (ℕ → Bool) → List (ℕ → Bool)
hexes zero rest = rest
hexes (suc n) rest = is_hex ∷ hexes n rest

-- `UUID_RE`
uuid_re : List (ℕ → Bool)
uuid_re = hexes 8 (
    dash ∷ hexes 4 (dash ∷ is_version ∷ hexes 3 (dash ∷ is_variant ∷ hexes 3 (dash ∷ hexes 12 []))))
  where
    dash : ℕ → Bool
    dash c = c == b'-'

-- `isUuid`, of a string
unfoldable pub is_uuid : Text → Bool
unfolding uuid_re matches_classes is_hex is_variant is_version
is_uuid s = matches_classes uuid_re s
