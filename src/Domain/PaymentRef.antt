-- ===== src/Domain/PaymentRef.antt =====
-- Payment references (backend/src/domain/paymentRef.js).
pub mod Laws
use ghost_merchant.Base.{
  ℕ, Bool, Option, none, some, [], ◌∷◌, ◌++◌, not, ◌&&◌, ◌||◌, leb, ltb, ◌==◌, length, filter, all,
  if◌then◌else◌,
}
use ghost_merchant.Base.Text.{Text, text, is_digit, is_space, trim}

-- `MAX_REFERENCE_LENGTH`
abbrev pub max_reference_length : ℕ
max_reference_length = 40

-- `[A-Z0-9._/]`
abbrev pub is_reference_char : ℕ → Bool
is_reference_char c =
    (leb b'A' c && leb c b'Z') || is_digit c || c == b'.' || c == b'_' || c == b'/'

-- what `replace(/[\s-]+/g, '')` leaves
abbrev pub is_kept : ℕ → Bool
is_kept c = not (is_space c || c == b'-')

checked : Text → Option Text
checked [] = some []
checked (c ∷ s) =
    if ltb max_reference_length (length (c ∷ s)) || not (all is_reference_char (c ∷ s))
    then none
    else some (c ∷ s)

-- `normalizeReference`. `to_upper` is the runtime's `toUpperCase`.
unfoldable pub normalize_reference : (Text → Text) → Text → Option Text
unfolding checked
normalize_reference to_upper raw = checked (filter is_kept (to_upper (trim raw)))
