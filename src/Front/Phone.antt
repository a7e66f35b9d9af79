-- ===== src/Front/Phone.antt =====
-- The pages' phone matcher (frontend/shared/phone.js), with its own copies of the tables.
pub mod Mirror
use ghost_merchant.Base.{
  ℕ, ◌+◌, ◌-◌, Bool, true, false, not, ◌&&◌, ◌||◌, Option, none, some, List, [], ◌∷◌, ◌++◌, ◌==◌,
  length, take, drop, filter, all, leb, ltb, if◌then◌else◌,
}
use ghost_merchant.Base.Decimal.{decimal}
use ghost_merchant.Base.Text.{Text, text, text_eq, is_digit, trim}
use ghost_merchant.Domain.Phone.{Country, so, us, Phone}

-- `PREFIX_TO_OPERATOR`
unfoldable pub prefix_to_operator : List (Text × Text)
prefix_to_operator =
    (text "61", text "Hormuud")
    ∷ (text "62", text "Hormuud")
    ∷ (text "77", text "Hormuud")
    ∷ (text "65", text "Somtel")
    ∷ (text "66", text "Somtel")
    ∷ (text "68", text "Somtel")
    ∷ (text "63", text "Telesom")
    ∷ (text "64", text "SomLink")
    ∷ (text "67", text "NationLink")
    ∷ (text "69", text "NationLink")
    ∷ (text "71", text "Amtel")
    ∷ (text "90", text "Golis")
    ∷ []

abbrev pub so_length : ℕ
so_length = 9

abbrev pub us_length : ℕ
us_length = 10

abbrev is_two_to_nine : ℕ → Bool
is_two_to_nine c = leb b'2' c && leb c b'9'

-- `US_RE`: `^[2-9]\d{2}[2-9]\d{6}$`
unfoldable pub us_re : Text → Bool
us_re (a ∷ b ∷ c ∷ d ∷ rest) =
    is_two_to_nine a
    && is_digit b
    && is_digit c
    && is_two_to_nine d
    && all is_digit rest
    && length rest == 6
us_re _ = false

-- `digits`
abbrev pub digits : Text → Text
digits = filter is_digit

-- `d.indexOf(p) === 0`
unfoldable pub begins : Text → Text → Bool
begins [] s = true
begins (p ∷ ps) [] = false
begins (p ∷ ps) (c ∷ s) = p == c && begins ps s

abbrev pub without_zeros : Text → Text
without_zeros d = if begins (b'0' ∷ b'0' ∷ []) d then drop 2 d else d

-- `split`, once the digits are there and the international prefix is off
unfoldable pub split_rest : Text → Option Country × Text
split_rest d =
    if begins (b'2' ∷ b'5' ∷ b'2' ∷ []) d && length d == 3 + so_length
    then (some so, drop 3 d)
    else if begins (b'1' ∷ []) d && ltb 1 (length d)
    then (some us, drop 1 d)
    else (none, if begins (b'0' ∷ []) d then drop 1 d else d)

-- `split`
unfoldable pub split : Text → Option Country × Text
split raw = split_rest (without_zeros (digits raw))

-- What `parse` returns: each refusal by its reason, with the national part.
pub data Typed : Type 0 where
  empty : Typed
  typing bad_us : Text → Typed
  bad_prefix : Text → Text → Typed
  incomplete too_many : Country → Text → Typed
  valid : Phone → Typed

unfoldable pub find_prefix : Text → List (Text × Text) → Option Text
find_prefix k [] = none
find_prefix k ((p, name) ∷ rest) = if text_eq p k then some name else find_prefix k rest

-- the branch of an explicit US number
unfoldable pub typed_us : Text → Typed
typed_us n =
    if ltb (length n) us_length
    then incomplete us n
    else if ltb us_length (length n)
    then too_many us n
    else if us_re n
    then valid (record {
      country = us;
      national = n;
      prefix = take 3 n;
      operator = text "US / Canada";
      can_ussd = false;
      e164 = text "+1" ++ n;
    })
    else bad_us n

unfoldable pub typed_with : Text → Option Text → Typed
typed_with n none = bad_prefix (take 2 n) n
typed_with n (some name) =
    if ltb (length n) so_length
    then incomplete so n
    else if ltb so_length (length n)
    then too_many so n
    else valid (record {
      country = so;
      national = n;
      prefix = take 2 n;
      operator = name;
      can_ussd = true;
      e164 = text "+252" ++ n;
    })

-- the Somali branch
unfoldable pub typed_so : Text → Typed
typed_so n =
    if ltb (length n) 2 then typing n else typed_with n (find_prefix (take 2 n) prefix_to_operator)

unfoldable pub typed_national : Option Country × Text → Typed
typed_national (_, []) = empty
typed_national (some us, c ∷ n) = typed_us (c ∷ n)
typed_national (some so, c ∷ n) = typed_so (c ∷ n)
typed_national (none, c ∷ n) = typed_so (c ∷ n)

-- `parse`
unfoldable pub parse : Text → Typed
parse raw = typed_national (split raw)

-- the field `complete`
abbrev pub is_complete : Typed → Bool
is_complete empty = false
is_complete (typing n) = false
is_complete (bad_prefix p n) = false
is_complete (incomplete c n) = false
is_complete (too_many c n) = true
is_complete (bad_us n) = true
is_complete (valid p) = true

-- the field `reason`
unfoldable pub reason : Typed → Text
reason empty = text "empty"
reason (typing n) = text "typing"
reason (bad_prefix p n) = text "Not a recognized Somali prefix (US numbers need +1)"
reason (incomplete so n) = decimal (so_length - length n) ++ text " more digit(s) needed"
reason (incomplete us n) = decimal (us_length - length n) ++ text " more digit(s) needed"
reason (too_many so n) = text "Too many digits (US numbers need +1)"
reason (too_many us n) = text "Too many digits"
reason (bad_us n) = text "Not a valid US number"
reason (valid p) = []

-- the fields `country === 'US'` and `national`
abbrev shown : Typed → Bool × Text
shown empty = (false, [])
shown (typing n) = (false, n)
shown (bad_prefix p n) = (false, n)
shown (incomplete so n) = (false, n)
shown (incomplete us n) = (true, n)
shown (too_many so n) = (false, n)
shown (too_many us n) = (true, n)
shown (bad_us n) = (true, n)
shown (valid p) = (elim p.country [ so ↦ false | us ↦ true ], p.national)

-- `n.slice(a, b)`
abbrev pub slice : ℕ → ℕ → Text → Text
slice a b n = take (b - a) (drop a n)

abbrev part : ℕ → Text → Text → Text
part k n s = if ltb k (length n) then s else []

unfoldable pub format_with : Bool × Text → Text
format_with (true, n) = trim (
    text "+1"
    ++ part 0 n (text " (" ++ slice 0 3 n ++ text ")")
    ++ part 3 n (text " " ++ slice 3 6 n)
    ++ part 6 n (text "-" ++ slice 6 10 n))
format_with (false, n) = trim (
    text "+252"
    ++ part 0 n (text " " ++ slice 0 2 n)
    ++ part 2 n (text " " ++ slice 2 5 n)
    ++ part 5 n (text " " ++ slice 5 9 n))

-- `format`
unfoldable pub format : Text → Text
format raw = format_with (shown (parse raw))

-- a number under the switch for the US, without a country code of its own
unfoldable pub parse_us_digits : Text → Text → Typed
parse_us_digits raw [] = parse raw
parse_us_digits raw (c ∷ d) = parse (text "+1" ++ (if c == b'1' then d else c ∷ d))

-- `parseAs`
unfoldable pub parse_as : Text → Country → Typed
parse_as raw so = parse raw
parse_as raw us =
    if begins (b'+' ∷ []) (trim raw) || begins (b'0' ∷ b'0' ∷ []) (digits raw)
    then parse raw
    else parse_us_digits raw (digits raw)
