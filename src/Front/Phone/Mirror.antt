-- ===== src/Front/Phone/Mirror.antt =====
-- The pages accept the numbers that the backend accepts.
use ghost_merchant.Base.{
  ◌≡◌, refl, sym, ap, ◌∙◌, true, false, Option, none, some, List, [], ◌∷◌, ◌==◌, ◌&&◌, length, take,
  drop, ltb, if◌then◌else◌, length-drop, arith, Bool-cases, inl, inr,
}
use ghost_merchant.Base.Text.{Text, text, text_eq, is_digit, filter-trim}
use ghost_merchant.Domain.Phone.{
  so, us, Phone, Parsed, operators, lookup_operator, us_national_re, digits_only, starts_with,
  strip, code_252, code_1, split_digits, split_country, parse_so, parse_us, parse_national,
  parse_phone,
}
use ghost_merchant.Domain.Phone.Canonical.{digit_solid}
use ghost_merchant.Front.Phone.{
  Typed, prefix_to_operator, us_re, digits, begins, without_zeros, split_rest, split, find_prefix,
  typed_us, typed_with, typed_so, typed_national, parse,
}

-- The number that a parser accepts.
abbrev pub accepted_here : Typed → Option Phone
accepted_here (Typed.valid p) = some p
accepted_here _ = none

abbrev pub accepted_there : Parsed → Option Phone
accepted_there (Parsed.valid p) = some p
accepted_there _ = none

begins-starts_with : (p s : Text) → begins p s ≡ starts_with p s
unfolding begins starts_with
begins-starts_with [] s = refl
begins-starts_with (p ∷ ps) [] = refl
begins-starts_with (p ∷ ps) (c ∷ s) = ap (λ b. (p == c) && b) (begins-starts_with ps s)

same_us_re : (n : Text) → us_re n ≡ us_national_re n
unfolding us_re us_national_re
same_us_re [] = refl
same_us_re (a ∷ []) = refl
same_us_re (a ∷ b ∷ []) = refl
same_us_re (a ∷ b ∷ c ∷ []) = refl
same_us_re (a ∷ b ∷ c ∷ d ∷ n) = refl

same_lookup : (k : Text) (t : List (Text × Text)) → find_prefix k t ≡ lookup_operator k t
unfolding find_prefix lookup_operator
same_lookup k [] = refl
same_lookup k ((p, name) ∷ t) = ap (λ o. if text_eq p k then some name else o) (same_lookup k t)

same_tables : prefix_to_operator ≡ operators
unfolding prefix_to_operator operators
same_tables = refl

-- What both accept of a Somali number, and of an American one.
abbrev so_part : Text → Option Phone
so_part n = if length n == 9 then accepted_there (parse_so n) else none

abbrev us_part : Text → Option Phone
us_part n = if length n == 10 then accepted_there (parse_us n) else none

us_here : (n : Text) → accepted_here (typed_us n) ≡ us_part n
unfolding typed_us parse_us text
us_here n = ground (arith, same_us_re n)

typed_with-lookup :
    (n : Text) (o : Option Text)
    → lookup_operator (take 2 n) operators ≡ o
    → accepted_here (typed_with n o) ≡ so_part n
unfolding typed_with parse_so text
typed_with-lookup n none e = ground (arith, e)
typed_with-lookup n (some name) e = ground (arith, e)

so_here : (n : Text) → accepted_here (typed_so n) ≡ so_part n
unfolding typed_so
so_here n = ground (
  arith,
  typed_with-lookup n (find_prefix (take 2 n) prefix_to_operator)
      (sym (same_lookup (take 2 n) operators) ∙ ap (find_prefix (take 2 n)) (sym same_tables)),
)

bare_here : (n : Text) → accepted_here (typed_national (none, n)) ≡ so_part n
unfolding typed_national
bare_here [] = ground arith
bare_here (c ∷ n) = so_here (c ∷ n)

so_national : (n : Text) → accepted_here (typed_national (some so, n)) ≡ so_part n
unfolding typed_national
so_national [] = ground arith
so_national (c ∷ n) = so_here (c ∷ n)

us_national : (n : Text) → accepted_here (typed_national (some us, n)) ≡ us_part n
unfolding typed_national
us_national [] = ground arith
us_national (c ∷ n) = us_here (c ∷ n)

-- No Somali prefix begins with 1.
one_unknown : (s : Text) → lookup_operator (take 2 (b'1' ∷ s)) operators ≡ none
unfolding lookup_operator operators text text_eq
one_unknown [] = refl
one_unknown (c ∷ s) = refl

one_rejected : (d : Text) → starts_with code_1 d ≡ true → so_part d ≡ none
unfolding starts_with parse_so
one_rejected [] h = ground arith
one_rejected (c ∷ s) h = ground (arith, one_unknown s)

not_zero : (d : Text) → starts_with code_1 d ≡ true → starts_with (b'0' ∷ []) d ≡ false
unfolding starts_with
not_zero [] h = ground arith
not_zero (c ∷ s) h = ground arith

-- What the backend makes of a number without a country code.
bare_there :
    (n : Text)
    → accepted_there (parse_national (if length n == 9 then (some so, n) else (none, n)))
      ≡ so_part n
unfolding parse_national
bare_there n = ground arith

agree_one :
    (d : Text)
    → starts_with code_252 d && length d == 12 ≡ false
    → starts_with code_1 d ≡ true
    → accepted_here (typed_national (split_rest d))
      ≡ accepted_there (parse_national (split_digits d))
unfolding split_rest split_digits parse_national
agree_one d far one = elim (Bool-cases (length d == 11)) [
  | inl eleven ↦ ground (
    arith,
    begins-starts_with code_252 d,
    begins-starts_with code_1 d,
    us_national (drop 1 d),
    length-drop 1 d,
  )
  | inr other ↦ elim (Bool-cases (ltb 1 (length d))) [
    | inl long ↦ ground (
      arith,
      begins-starts_with code_252 d,
      begins-starts_with code_1 d,
      us_national (drop 1 d),
      length-drop 1 d,
      not_zero d one,
      one_rejected d one,
    )
    | inr short ↦ ground (
      arith,
      begins-starts_with code_252 d,
      begins-starts_with code_1 d,
      begins-starts_with (b'0' ∷ []) d,
      bare_here d,
      not_zero d one,
      one_rejected d one,
    )
  ]
]

agree_digits :
    (d : Text)
    → accepted_here (typed_national (split_rest d))
      ≡ accepted_there (parse_national (split_digits d))
unfolding split_rest split_digits parse_national
agree_digits d = elim (Bool-cases (starts_with code_252 d && length d == 12)) [
  | inl somali ↦
      ground (arith, begins-starts_with code_252 d, so_national (drop 3 d), length-drop 3 d)
  | inr far ↦ elim (Bool-cases (starts_with code_1 d)) [
    | inl one ↦ agree_one d far one
    | inr other ↦ ground (
      arith,
      begins-starts_with code_252 d,
      begins-starts_with code_1 d,
      begins-starts_with (b'0' ∷ []) d,
      bare_here (strip (b'0' ∷ []) d),
      bare_there (strip (b'0' ∷ []) d),
    )
  ]
]

agree_zeros :
    (d : Text)
    → accepted_here (typed_national (split_rest (without_zeros d)))
      ≡ accepted_there (
          if length d == 0
          then Parsed.empty
          else parse_national (split_digits (strip (b'0' ∷ b'0' ∷ []) d)))
unfolding typed_national split_rest begins
agree_zeros [] = refl
agree_zeros (c ∷ s) = ground (
  arith,
  begins-starts_with (b'0' ∷ b'0' ∷ []) (c ∷ s),
  agree_digits (strip (b'0' ∷ b'0' ∷ []) (c ∷ s)),
)

-- The two parsers agree: whatever is typed, the pages accept it exactly where the backend does, as
-- the same number, with the same country, operator and E.164 form.
pub parse-parse_phone : (raw : Text) → accepted_here (parse raw) ≡ accepted_there (parse_phone raw)
unfolding parse split parse_phone split_country digits_only
parse-parse_phone raw =
    agree_zeros (digits raw)
    ∙ ap
        (λ d. accepted_there (
          if length (digits raw) == 0
          then Parsed.empty
          else parse_national (split_digits (strip (b'0' ∷ b'0' ∷ []) d))))
        (sym (filter-trim is_digit digit_solid raw))
