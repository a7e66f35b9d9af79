-- ===== src/Domain/Email.antt =====
-- Email addresses (backend/src/domain/email.js). Lower case is a parameter.
use ghost_merchant.Base.{
  ℕ, Bool, false, not, ◌&&◌, ◌||◌, Option, none, some, [], ◌∷◌, ◌++◌, take, length, all, leb, ◌==◌,
  if◌then◌else◌,
}
use ghost_merchant.Base.Text.{Text, text, trim, is_space}

-- `[^\s@]`
abbrev pub is_plain : ℕ → Bool
is_plain c = not (is_space c) && not (c == b'@')

-- `\.[^\s@]{2,}`, of a text that is plain
pub has_suffix : Text → Bool
has_suffix [] = false
has_suffix (c ∷ s) = (c == b'.' && leb 2 (length s)) || has_suffix s

-- `[^\s@]+\.[^\s@]{2,}`
pub is_domain : Text → Bool
is_domain [] = false
is_domain (c ∷ s) = all is_plain (c ∷ s) && has_suffix s

-- what follows the first character
pub is_rest : Text → Bool
is_rest [] = false
is_rest (c ∷ s) = if c == b'@' then is_domain s else not (is_space c) && is_rest s

-- `EMAIL_RE`
unfoldable pub is_email : Text → Bool
unfolding is_rest is_domain has_suffix
is_email [] = false
is_email (c ∷ s) = is_plain c && is_rest s

unfoldable pub normalize_email : (Text → Text) → Text → Option Text
normalize_email to_lower raw =
    let e = to_lower (trim raw) in if leb (length e) 254 && is_email e then some e else none

-- a text up to the next `@`
unfoldable pub first_part : Text → Text
first_part [] = []
first_part (c ∷ s) = if c == b'@' then [] else c ∷ first_part s

-- the parts of `email.split('@')`: the first, and the second where there is one
pub split_at : Text → Text × Option Text
split_at [] = ([], none)
split_at (c ∷ s) =
    let (user, domain) = split_at s in
    if c == b'@' then ([], some (first_part s)) else (c ∷ user, domain)

pub masked : Text × Option Text → Text
masked (user, some (c ∷ s)) = take 2 user ++ text "•••@" ++ c ∷ s
masked (user, _) = text "•••"

-- `maskEmail`; an empty domain is none
unfoldable pub mask_email : Text → Text
unfolding split_at first_part masked
mask_email email = masked (split_at email)
