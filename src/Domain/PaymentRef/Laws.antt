-- ===== src/Domain/PaymentRef/Laws.antt =====
-- A reference has one canonical form.
use ghost_merchant.Base.{
  ◌≡◌, refl, ◌∙◌, ap, some, [], ◌∷◌, true, false, ℕ, arith, length, filter, all, filter_of_all,
  all_mono, ◌≤◌,
}
use ghost_merchant.Base.Text.{Text, is_space, trim, trim_of_all}
use ghost_merchant.Domain.PaymentRef.{
  max_reference_length, is_reference_char, is_kept, checked, normalize_reference,
}

-- What an accepted reference is made of.
abbrev pub IsReference : Text → Type 0
IsReference s = (all is_reference_char s ≡ true) × (length s ≤ max_reference_length)

checked-IsReference : (s r : Text) → checked s ≡ some r → (r ≡ s) × IsReference r
unfolding checked
checked-IsReference [] r h = ground arith
checked-IsReference (c ∷ s) r h = ground arith

checked_of_IsReference : (s : Text) → IsReference s → checked s ≡ some s
unfolding checked
checked_of_IsReference [] h = refl
checked_of_IsReference (c ∷ s) h = ground arith

char_kept : (c : ℕ) → is_reference_char c ≡ true → is_kept c ≡ true
unfolding is_space
char_kept c h = ground arith

char_solid : (c : ℕ) → is_reference_char c ≡ true → is_space c ≡ false
unfolding is_space
char_solid c h = ground arith

-- Every accepted reference has at most forty characters, all of the receipt alphabet; it is
-- its own normal form, given that `toUpperCase` leaves text of that alphabet alone.
pub normalize_reference_idem :
    (to_upper : Text → Text)
    → ((s : Text) → all is_reference_char s ≡ true → to_upper s ≡ s)
    → (raw r : Text) → normalize_reference to_upper raw ≡ some r
    → IsReference r × (normalize_reference to_upper r ≡ some r)
unfolding normalize_reference
normalize_reference_idem to_upper fixed raw r h =
    let (made, good) = checked-IsReference (filter is_kept (to_upper (trim raw))) r h in
    let kept = filter_of_all is_kept r (all_mono is_reference_char is_kept r char_kept good.0) in
    let same = ap to_upper (trim_of_all is_reference_char char_solid r good.0) ∙ fixed r good.0 in
    (good, ap checked (ap (filter is_kept) same ∙ kept) ∙ checked_of_IsReference r good)
