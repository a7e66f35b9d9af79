-- ===== src/Domain/Phone.antt =====
-- Phone numbers (backend/src/domain/phone.js; frontend/shared/phone.js is its mirror).
pub mod Canonical
use ghost_merchant.Base.{
  ℕ, ◌+◌, Bool, true, false, Option, none, some, List, [], ◌∷◌, ◌++◌, ◌&&◌, leb, ◌==◌, length, take,
  drop, filter, all, if◌then◌else◌,
}
use ghost_merchant.Base.Text.{Text, text, text_eq, is_digit, trim}
use ghost_merchant.Base.Decimal.{decimal}

pub data Country : Type 0 where
  so us : Country

-- `{ valid: true, … }`
pub record Phone : Type 0 where
  pub country : Country
  pub national : Text
  pub prefix : Text
  pub operator : Text
  pub can_ussd : Bool
  pub e164 : Text

-- What `parsePhone` returns; each refusal stands for its `reason`.
pub data Parsed : Type 0 where
  empty : Parsed
  bad_length : Text → Parsed
  unknown_prefix : Text → Text → Parsed
  bad_us : Text → Parsed
  valid : Phone → Parsed

-- `PREFIX_TO_OPERATOR`
unfoldable pub operators : List (Text × Text)
operators =
    (text "61", text "Hormuud")
    ∷ (text "62", text "Hormuud")
    ∷ (text "77", text "Hormuud")
    ∷ (text "65", text "Somtel")
    ∷ (text "66", text "Somtel")
    ∷ (text "68", text "Somtel")
    ∷ (text "63", text "Telesom")
    ∷ (text "64", text "SomLink")
    ∷ (text "67", text "NationLink")
    ∷ (text "69", text "NationLink")
    ∷ (text "71", text "Amtel")
    ∷ (text "90", text "Golis")
    ∷ []

unfoldable pub lookup_operator : Text → List (Text × Text) → Option Text
lookup_operator k [] = none
lookup_operator k ((p, name) ∷ rest) = if text_eq p k then some name else lookup_operator k rest

abbrev so_national_length : ℕ
so_national_length = 9

abbrev us_national_length : ℕ
us_national_length = 10

-- `digitsOnly`
unfoldable pub digits_only : Text → Text
digits_only = filter is_digit

abbrev is_two_to_nine : ℕ → Bool
is_two_to_nine c = leb b'2' c && leb c b'9'

-- `US_NATIONAL_RE`: `^[2-9]\d{2}[2-9]\d{6}$`
unfoldable pub us_national_re : Text → Bool
us_national_re (a ∷ b ∷ c ∷ d ∷ rest) =
    is_two_to_nine a
    && is_digit b
    && is_digit c
    && is_two_to_nine d
    && all is_digit rest
    && length rest == 6
us_national_re _ = false

unfoldable pub starts_with : Text → Text → Bool
starts_with [] s = true
starts_with (p ∷ ps) [] = false
starts_with (p ∷ ps) (c ∷ s) = p == c && starts_with ps s

abbrev pub strip : Text → Text → Text
strip p s = if starts_with p s then drop (length p) s else s

abbrev pub code_252 : Text
code_252 = b'2' ∷ b'5' ∷ b'2' ∷ []

abbrev pub code_1 : Text
code_1 = b'1' ∷ []

-- `splitCountry`, from the digits on; without `hadIntlPrefix`, which nothing reads.
unfoldable pub split_digits : Text → Option Country × Text
split_digits digits =
    if starts_with code_252 digits && length digits == 3 + so_national_length
    then (some so, drop 3 digits)
    else if starts_with code_1 digits && length digits == 1 + us_national_length
    then (some us, drop 1 digits)
    else bare (strip (b'0' ∷ []) digits)
  where
    bare : Text → Option Country × Text
    bare n = if length n == so_national_length then (some so, n) else (none, n)

unfoldable pub split_country : Text → Option Country × Text
unfolding split_digits digits_only
split_country raw = split_digits (strip (b'0' ∷ b'0' ∷ []) (digits_only (trim raw)))

unfoldable pub parse_so : Text → Parsed
parse_so national = elim (lookup_operator (take 2 national) operators) [
  | none ↦ unknown_prefix national (take 2 national)
  | some name ↦ valid (record {
    country = so;
    national = national;
    prefix = take 2 national;
    operator = name;
    can_ussd = true;
    e164 = (b'+' ∷ code_252) ++ national;
  })
]

unfoldable pub parse_us : Text → Parsed
parse_us national =
    if us_national_re national
    then valid (record {
      country = us;
      national = national;
      prefix = take 3 national;
      operator = text "US / Canada";
      can_ussd = false;
      e164 = (b'+' ∷ code_1) ++ national;
    })
    else bad_us national

unfoldable pub parse_national : Option Country × Text → Parsed
parse_national (none, national) = bad_length national
parse_national (some so, national) = parse_so national
parse_national (some us, national) = parse_us national

-- `parsePhone`, of a string
unfoldable pub parse_phone : Text → Parsed
unfolding split_country digits_only parse_national parse_so parse_us lookup_operator operators
    us_national_re starts_with
parse_phone raw =
    if length (digits_only raw) == 0 then empty else parse_national (split_country raw)

-- The `reason` of a refusal.
unfoldable pub phone_reason : Parsed → Text
phone_reason empty = text "empty"
phone_reason (bad_length n) =
    text "expected 9 digits (Somalia), got "
    ++ decimal (length n)
    ++ (if length n == us_national_length
        then text " — for a US number include the country code (+1)"
        else [])
phone_reason (unknown_prefix n p) = text "unknown operator prefix \"" ++ p ++ text "\""
phone_reason (bad_us n) = text "not a valid US number (area code and exchange must start 2-9)"
phone_reason (valid p) = []

-- `normalizeMsisdnOrThrow`; `none` is the throw
unfoldable pub normalize_msisdn : Text → Option Text
unfolding parse_phone
normalize_msisdn raw = elim (parse_phone raw) [ valid p ↦ some p.e164 | _ ↦ none ]

-- `canPayByUssd`
unfoldable pub can_pay_by_ussd : Text → Bool
unfolding parse_phone
can_pay_by_ussd raw = elim (parse_phone raw) [ valid p ↦ p.can_ussd | _ ↦ false ]
