-- ===== src/Domain/Phone/Canonical.antt =====
-- What the parser returns is canonical.
use ghost_merchant.Base.{
  ℕ, ◌≡◌, true, false, Option, none, some, [], ◌∷◌, ◌++◌, arith, length, all, ap, ◌∙◌, all-filter,
  filter_of_all, all-drop, length-drop,
}
use ghost_merchant.Base.Text.{Text, is_digit, is_space, trim, filter-trim}
use ghost_merchant.Domain.Phone.{
  Phone, Country, so, us, valid, digits_only, split_digits, split_country, parse_phone, parse_so,
  parse_us, parse_national, code_252, code_1, starts_with, strip,
}

pub digit_solid : (c : ℕ) → is_digit c ≡ true → is_space c ≡ false
unfolding is_space
digit_solid c h = ground arith

-- The national part that each country's branch hands on: digits, nine or ten of them.
abbrev Splits : Option Country × Text → Type 0
Splits (none, n) = Unit {0}
Splits (some so, n) = (all is_digit n ≡ true) × (length n ≡ 9)
Splits (some us, n) = (all is_digit n ≡ true) × (length n ≡ 10)

split_digits-Splits : (ds : Text) → all is_digit ds ≡ true → Splits (split_digits ds)
unfolding split_digits
split_digits-Splits ds h =
    ground (
      arith,
      all-drop is_digit 3 ds h,
      all-drop is_digit 1 ds h,
      length-drop 3 ds,
      length-drop 1 ds,
    )

strip-digits : (p s : Text) → all is_digit s ≡ true → all is_digit (strip p s) ≡ true
strip-digits p s h = ground (arith, all-drop is_digit (length p) s h)

split_country-Splits : (raw : Text) → Splits (split_country raw)
unfolding split_country digits_only
split_country-Splits raw =
    split_digits-Splits _ (strip-digits (b'0' ∷ b'0' ∷ []) _ (all-filter is_digit (trim raw)))

-- An E.164 form is split as it was written.
split_e164_so :
    (n : Text)
    → all is_digit n ≡ true
    → length n ≡ 9
    → split_country ((b'+' ∷ code_252) ++ n) ≡ (some so, n)
unfolding split_country split_digits digits_only starts_with
split_e164_so n h l =
    rw (filter-trim is_digit digit_solid) (ground (arith, filter_of_all is_digit n h))

split_e164_us :
    (n : Text)
    → all is_digit n ≡ true
    → length n ≡ 10
    → split_country ((b'+' ∷ code_1) ++ n) ≡ (some us, n)
unfolding split_country split_digits digits_only starts_with
split_e164_us n h l =
    rw (filter-trim is_digit digit_solid) (ground (arith, filter_of_all is_digit n h))

e164_so : (n : Text) (p : Phone) → parse_so n ≡ valid p → p.e164 ≡ (b'+' ∷ code_252) ++ n
unfolding parse_so
e164_so n p h = ground arith

e164_us : (n : Text) (p : Phone) → parse_us n ≡ valid p → p.e164 ≡ (b'+' ∷ code_1) ++ n
unfolding parse_us
e164_us n p h = ground arith

reparse_so :
    (n : Text)
    → all is_digit n ≡ true
    → length n ≡ 9
    → parse_phone ((b'+' ∷ code_252) ++ n) ≡ parse_so n
unfolding parse_phone digits_only parse_national
reparse_so n h l = rw (split_e164_so n h l) (ground arith)

reparse_us :
    (n : Text)
    → all is_digit n ≡ true
    → length n ≡ 10
    → parse_phone ((b'+' ∷ code_1) ++ n) ≡ parse_us n
unfolding parse_phone digits_only parse_national
reparse_us n h l = rw (split_e164_us n h l) (ground arith)

canonical_of_split :
    (c : Option Country × Text) (p : Phone)
    → Splits c
    → parse_national c ≡ valid p
    → parse_phone p.e164 ≡ valid p
unfolding parse_national
canonical_of_split (none, n) p s h = cc
canonical_of_split (some so, n) p s h = ap parse_phone (e164_so n p h) ∙ reparse_so n s.0 s.1 ∙ h
canonical_of_split (some us, n) p s h = ap parse_phone (e164_us n p h) ∙ reparse_us n s.0 s.1 ∙ h

national_of_valid :
    (raw : Text) (p : Phone)
    → parse_phone raw ≡ valid p
    → parse_national (split_country raw) ≡ valid p
unfolding parse_phone
national_of_valid raw p h = ground arith

-- Whatever spelling of a number is accepted, its E.164 form is accepted too and stands for the
-- same number: the form is canonical, and to normalise twice is to normalise once.
pub parse_phone-e164 :
    (raw : Text) (p : Phone) → parse_phone raw ≡ valid p → parse_phone p.e164 ≡ valid p
parse_phone-e164 raw p h =
    canonical_of_split (split_country raw) p (split_country-Splits raw) (national_of_valid raw p h)
