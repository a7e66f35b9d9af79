-- ===== src/Staff/Rules.antt =====
-- The rules of staff accounts (backend/src/domain/operator.js, backend/src/domain/staffInvite.js).
-- Lower case is a parameter.
use ghost_merchant.Base.{
  ℕ, ◌+◌, ◌*◌, ◌++◌, Bool, true, false, ◌&&◌, ◌||◌, [], ◌∷◌, length, all, leb, ltb, ◌==◌,
  if◌then◌else◌, ◌≡◌, refl, ◌⊎◌, inl, inr,
}
use ghost_merchant.Base.Decimal.{decimal, pad_start}
use ghost_merchant.Base.Text.{Text, text, trim, is_digit, is_space}
use ghost_merchant.Auth.Passwords.{includes}

abbrev pub min_password_length : ℕ
min_password_length = 12

-- `[a-z0-9]`
abbrev is_lower_or_digit : ℕ → Bool
is_lower_or_digit c = is_digit c || (leb b'a' c && leb c b'z')

-- `[a-z0-9._-]`
abbrev is_name_char : ℕ → Bool
is_name_char c = is_lower_or_digit c || c == b'.' || c == b'_' || c == b'-'

-- `USERNAME_RE`: `^[a-z0-9][a-z0-9._-]{2,31}$`
unfoldable pub username_re : Text → Bool
username_re [] = false
username_re (c ∷ s) =
    is_lower_or_digit c && all is_name_char s && leb 2 (length s) && leb (length s) 31

-- `normalizeUsername`; a missing name reads as the empty string
unfoldable pub normalize_username : (Text → Text) → Text → Text
normalize_username to_lower raw = to_lower (trim raw)

-- What a check says: the reason, or the value to use.
pub data Checked : Type 0 where
  refused accepted : Text → Checked

pub Checked-cases :
    (c : Checked) → ((why : Text) × (c ≡ refused why)) ⊎ ((value : Text) × (c ≡ accepted value))
Checked-cases (refused why) = inl (why, refl)
Checked-cases (accepted value) = inr (value, refl)

unfoldable pub username_checked : Text → Checked
username_checked [] = refused (text "username required")
username_checked (c ∷ s) =
    if username_re (c ∷ s)
    then accepted (c ∷ s)
    else refused (text "username must be 3-32 chars: letters, digits, dot, dash or underscore")

-- `validateUsername`
unfoldable pub validate_username : (Text → Text) → Text → Checked
validate_username to_lower raw = username_checked (normalize_username to_lower raw)

-- `username && password.toLowerCase().includes(normalizeUsername(username))`
unfoldable pub has_username : (Text → Text) → Text → Text → Bool
has_username to_lower [] password = false
has_username to_lower (c ∷ s) password =
    includes (normalize_username to_lower (c ∷ s)) (to_lower password)

-- `/^\s+$/`
abbrev is_blank : Text → Bool
is_blank [] = false
is_blank (c ∷ s) = all is_space (c ∷ s)

-- `validatePassword`; no username is the empty one
unfoldable pub validate_password : (Text → Text) → Text → Text → Checked
validate_password to_lower password username =
    if ltb (length password) min_password_length
    then refused (text "password must be at least 12 characters")
    else if ltb 200 (length password)
    then refused (text "password too long")
    else if has_username to_lower username password
    then refused (text "password must not contain the username")
    else if is_blank password
    then refused (text "password must not be blank")
    else accepted password

abbrev pub setup_code_length : ℕ
setup_code_length = 8

abbrev pub setup_ttl_ms : ℕ
setup_ttl_ms = 24 * 60 * 60 * 1000

abbrev pub setup_max_attempts : ℕ
setup_max_attempts = 5

abbrev pub driver_pin_length : ℕ
driver_pin_length = 6

-- `generateSetupCode`, of the number that is drawn
unfoldable pub generate_setup_code : ℕ → Text
generate_setup_code drawn = pad_start setup_code_length (decimal drawn)

-- `isWellFormedSetupCode`
unfoldable pub is_well_formed_setup_code : Text → Bool
is_well_formed_setup_code code = all is_digit code && length code == setup_code_length

-- each digit one above the digit before it, or one below
abbrev goes_up : ℕ → Text → Bool
goes_up c [] = true
goes_up c (d ∷ s) = d == c + 1 && goes_up d s

abbrev goes_down : ℕ → Text → Bool
goes_down c [] = true
goes_down c (d ∷ s) = c == d + 1 && goes_down d s

abbrev is_easy : Text → Bool
is_easy [] = false
is_easy (c ∷ s) = all (λ d. d == c) s || goes_up c s || goes_down c s

-- `validateDriverPin`
unfoldable pub validate_driver_pin : Text → Checked
validate_driver_pin pin =
    if all is_digit pin && length pin == driver_pin_length
    then (if is_easy pin then refused (text "PIN is too easy to guess") else accepted pin)
    else refused (text "PIN must be exactly 6 digits")

-- `setupMessage`: for a driver, or for an operator
unfoldable pub setup_message : Bool → Text → Text
setup_message is_driver code =
    text "GuriKaabe: your "
    ++ (if is_driver then text "driver" else text "operator")
    ++ text " account is ready. Setup code "
    ++ code
    ++ text " (24h). App > "
    ++ (if is_driver then text "Driver" else text "Operator")
    ++ text " > Set up account.\nKoodhka: "
    ++ code
    ++ text ". App > "
    ++ (if is_driver then text "Darawal" else text "Maamule")
    ++ text " > Samee akoonka."
