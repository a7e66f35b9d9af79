-- ===== src/Domain/Redact/Hidden.antt =====
-- What a masked number hides.
use ghost_merchant.Base.{
  ℕ, zero, suc, not, ◌==◌, filter-append, length-filter-le, ◌-◌, ◌≤◌, ◌<◌, ◌≡◌, refl, Bool, [], ◌∷◌,
  ◌++◌, length, take, filter, replicate, length-append, length-drop, leb, arith, Bool-cases, inl,
  inr,
}
use ghost_merchant.Base.Text.{Text, text}
use ghost_merchant.Domain.Redact.{
  is_phone_char, bullet, last_three, head_of, mask_digits, mask_phone,
}

length-replicate : (n c : ℕ) → length (replicate n c) ≡ n
length-replicate zero c = refl
length-replicate (suc n) c = ground (arith, length-replicate n c)

length-take-le : (n : ℕ) (s : Text) → length (take n s) ≤ n
length-take-le zero s = omega arith
length-take-le (suc n) [] = omega arith
length-take-le (suc n) (c ∷ s) = ground (arith, length-take-le n s)

length-head_of : (s : Text) → length (head_of s) ≤ 4
unfolding head_of text
length-head_of s = ground (arith, length-take-le 3 s)

length-last_three : (s : Text) → 3 ≤ length s → length (last_three s) ≡ 3
length-last_three s h = omega (arith, length-drop (length s - 3) s, h)

-- What is no bullet.
abbrev pub shown : Text → Text
shown = filter λ c. not (c == bullet)

shown-replicate : (n : ℕ) → shown (replicate n bullet) ≡ []
shown-replicate zero = refl
shown-replicate (suc n) = ground (arith, shown-replicate n)

long-length :
    (h t : Text) (n : ℕ)
    → length h ≤ 4
    → length t ≡ 3
    → 7 < n
    → length (h ++ replicate (n - length h - length t) bullet ++ t) ≡ n
long-length h t n short three long = omega (
  arith,
  short,
  three,
  long,
  length-append (h ++ replicate (n - length h - length t) bullet) t,
  length-append h (replicate (n - length h - length t) bullet),
  length-replicate (n - length h - length t) bullet,
)

long-shown :
    (h t : Text) (n : ℕ)
    → length h ≤ 4
    → length t ≡ 3
    → length (shown (h ++ replicate n bullet ++ t)) ≤ 7
long-shown h t n short three =
    let p : ℕ → Bool = λ c. not (c == bullet) in
    rw
      (
        filter-append p (h ++ replicate n bullet) t,
        filter-append p h (replicate n bullet),
        shown-replicate n,
      )
      (omega (
        arith,
        short,
        three,
        length-append (shown h ++ []) (shown t),
        length-append (shown h) [],
        length-filter-le p h,
        length-filter-le p t,
      ))

-- A masked number is as long as what was given, less what is no digit and no plus, and shows at
-- most seven of its characters.
pub mask_phone-shown :
    (phone : Text)
    → (length (mask_phone phone) ≡ length (filter is_phone_char phone))
      × (length (shown (mask_phone phone)) ≤ 7)
unfolding mask_phone mask_digits
mask_phone-shown phone =
    let s = filter is_phone_char phone in
    elim (Bool-cases (leb (length s) 7)) [
      | inl short ↦
          rw short (length-replicate (length s) bullet, ground (arith, shown-replicate (length s)))
      | inr long ↦
          let three = length-last_three s (ground arith) in
          rw long (
            long-length (head_of s) (last_three s) (length s) (length-head_of s) three
                (ground arith),
            long-shown (head_of s) (last_three s)
                (length s - length (head_of s) - length (last_three s)) (length-head_of s) three,
          )
    ]
