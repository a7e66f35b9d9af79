-- ===== src/Auth/Challenges/Guesses.antt =====
-- A code has five tries and is good once.
use ghost_merchant.Base.{
  ℕ, ◌+◌, ◌≤◌, ◌<◌, ◌≡◌, refl, ap, ◌∙◌, Bool, false, ◌||◌, Option, none, some, List, [], ◌∷◌, ◌++◌,
  All, length, leb, Bool-cases, Option-cases, inl, inr, ◌⊎◌, arith,
}
use ghost_merchant.Base.Text.{Text, text_eq_refl}
use ghost_merchant.Domain.Phone.{normalize_msisdn}
use ghost_merchant.Db.Tx.{ok, err, otp_invalid}
use ghost_merchant.Auth.Otp.{max_attempts}
use ghost_merchant.Auth.Challenges.{
  Challenge, User, Accounts, find_code, delete_code, update_code, delete_codes, Outcome, try_code,
  consume_row, consume, answer, consume_challenge, by_phone, phone_account, user_by_phone,
  verify_to, verify_otp,
}

find_code-delete : (key : Text) (cs : List Challenge) → find_code key (delete_code key cs) ≡ none
find_code-delete key [] = refl
find_code-delete key (c ∷ cs) = ground (arith, find_code-delete key cs)

pub find_code-update :
    (key : Text) (f : Challenge → Challenge) (cs : List Challenge) (c : Challenge)
    → ((x : Challenge) → (f x).key ≡ x.key)
    → find_code key cs ≡ some c
    → find_code key (update_code key f cs) ≡ some (f c)
find_code-update key f [] c same h = ground arith
find_code-update key f (x ∷ xs) c same h = ground (arith, same x, find_code-update key f xs c same)

pub find_code-append :
    (key : Text) (cs : List Challenge) (c : Challenge)
    → c.key ≡ key
    → find_code key cs ≡ none
    → find_code key (cs ++ c ∷ []) ≡ some c
find_code-append key [] c same h = ground (arith, text_eq_refl key)
find_code-append key (x ∷ xs) c same h = ground (arith, find_code-append key xs c same)

-- The challenge of a key.
abbrev pub challenge : Text → Accounts → Option Challenge
challenge key a = find_code key a.otp_codes

module _ (verify_code : Text → Text → Bool) (key : Text)
    (account : Accounts → User × Accounts) where
  consume_missing :
      (code : Text) (now : ℕ) (a : Accounts)
      → challenge key a ≡ none
      → consume verify_code key code account now a ≡ (none, a)
  unfolding consume consume_row
  consume_missing code now a h = ground arith

  -- A wrong code takes a try, the last one the challenge.
  consume_wrong :
      (code : Text) (now : ℕ) (a : Accounts) (c : Challenge)
      → challenge key a ≡ some c
      → verify_code code c.code_hash ≡ false
      → ((consume verify_code key code account now a).0 ≡ none)
        × ((challenge key (consume verify_code key code account now a).1 ≡ none)
            ⊎ (challenge key (consume verify_code key code account now a).1
                  ≡ some (record c { attempts = c.attempts + 1 })
                × (c.attempts + 1 < max_attempts)))
  unfolding consume consume_row try_code
  consume_wrong code now a c h miss = (
    ground arith,
    elim (Bool-cases (
        (leb c.expires_at now || leb max_attempts c.attempts)
        || leb max_attempts (c.attempts + 1))) [
          | inl over ↦ inl (ground (arith, find_code-delete key a.otp_codes))
          | inr room ↦ inr (
            ground (
              arith,
              find_code-update key (λ x. record x { attempts = c.attempts + 1 }) a.otp_codes c,
            ),
            ground arith,
          )
        ],
  )

  -- Guesses one after the other, each a code and the time when it came.
  pub guess_all : List (Text × ℕ) → Accounts → Accounts
  guess_all [] a = a
  guess_all ((code, now) ∷ gs) a = guess_all gs (consume verify_code key code account now a).1

  guess_all_missing :
      (gs : List (Text × ℕ)) (a : Accounts) → challenge key a ≡ none → guess_all gs a ≡ a
  unfolding guess_all
  guess_all_missing [] a h = refl
  guess_all_missing ((code, now) ∷ gs) a h =
      let same = ap (λ o. o.1) (consume_missing code now a h) in
      ap (guess_all gs) same ∙ guess_all_missing gs a h

  guess_all_burns :
      (gs : List (Text × ℕ)) (a : Accounts) (hashed : Text)
      → (challenge key a ≡ none)
        ⊎ ((c : Challenge) × (challenge key a ≡ some c)
            × (c.code_hash ≡ hashed)
            × (max_attempts ≤ c.attempts + length gs)
            × (c.attempts < max_attempts))
      → All (λ g. verify_code g.0 hashed ≡ false) gs
      → challenge key (guess_all gs a) ≡ none
  unfolding guess_all
  guess_all_burns gs a hashed (inl gone) wrong =
      ap (challenge key) (guess_all_missing gs a gone) ∙ gone
  guess_all_burns [] a hashed (inr (c, there, is_hash, full, room)) wrong = absurd (omega arith)
  guess_all_burns ((code, now) ∷ gs) a hashed (inr (c, there, is_hash, full, room)) (miss, wrong) =
      let a' = (consume verify_code key code account now a).1 in
      elim (consume_wrong code now a c there (ground (arith, miss))).1 [
        | inl gone ↦ guess_all_burns gs a' hashed (inl gone) wrong
        | inr (kept, left) ↦
            guess_all_burns gs a' hashed
              (inr (record c { attempts = c.attempts + 1 }, kept, is_hash, omega arith, left)) wrong
      ]

-- After five wrong guesses at a fresh code, whenever they come, the code is dead: the next guess
-- is refused, the right code too.
pub five_guesses :
    (verify_code : Text → Text → Bool) (key : Text) (account : Accounts → User × Accounts)
    (gs : List (Text × ℕ)) (a : Accounts) (c : Challenge) (code : Text) (now : ℕ)
    → challenge key a ≡ some c
    → c.attempts ≡ 0
    → max_attempts ≤ length gs
    → All (λ g. verify_code g.0 c.code_hash ≡ false) gs
    → consume_challenge verify_code key code account now (guess_all verify_code key account gs a)
      ≡ (err otp_invalid, guess_all verify_code key account gs a)
unfolding consume_challenge answer
five_guesses verify_code key account gs a c code now there fresh five wrong = ap answer (
    consume_missing verify_code key account code now (guess_all verify_code key account gs a) (
      guess_all_burns verify_code key account gs a c.code_hash
        (inr (c, there, refl, omega (arith, fresh, five), omega (arith, fresh))) wrong))

by_phone-codes : (phone : Text) (a : Accounts) → (by_phone phone a).1.otp_codes ≡ a.otp_codes
unfolding by_phone phone_account
by_phone-codes phone a = elim (Option-cases (user_by_phone phone a.users)) [
  | inl new ↦ ground arith
  | inr (u, known) ↦ ground arith
]

consume-some :
    (verify_code : Text → Text → Bool) (key : Text) (code : Text)
    (account : Accounts → User × Accounts) (now : ℕ) (a a' : Accounts) (user : User)
    → ((x : Accounts) → (account x).1.otp_codes ≡ x.otp_codes)
    → consume verify_code key code account now a ≡ (some user, a')
    → challenge key a' ≡ none
unfolding consume consume_row try_code
consume-some verify_code key code account now a a' user keeps h =
    ground (arith, keeps (delete_codes key a), find_code-delete key a.otp_codes)

answer-ok :
    (o : Outcome) (user : User) (a : Accounts) → answer o ≡ (ok user, a) → o ≡ (some user, a)
unfolding answer
answer-ok (none, a') user a h = ground arith
answer-ok (some u, a') user a h = ground arith

verify_to-once :
    (verify_code : Text → Text → Bool) (phone : Option Text) (code again : Text) (now later : ℕ)
    (a a' : Accounts) (user : User)
    → verify_to verify_code phone code now a ≡ (ok user, a')
    → verify_to verify_code phone again later a' ≡ (err otp_invalid, a')
unfolding verify_to consume_challenge answer
verify_to-once verify_code none code again now later a a' user h = ground arith
verify_to-once verify_code (some phone) code again now later a a' user h =
    let gone =
      consume-some verify_code phone code (by_phone phone) now a a' user (by_phone-codes phone)
        (answer-ok (consume verify_code phone code (by_phone phone) now a) user a' h) in
    ap answer (consume_missing verify_code phone (by_phone phone) again later a' gone)

-- A code signs in once: after a verification that succeeds, another one for the same number is
-- refused, with the same code or any other.
pub verify_otp_once :
    (verify_code : Text → Text → Bool) (raw code again : Text) (now later : ℕ) (a a' : Accounts)
    (user : User)
    → verify_otp verify_code raw code now a ≡ (ok user, a')
    → verify_otp verify_code raw again later a' ≡ (err otp_invalid, a')
unfolding verify_otp
verify_otp_once verify_code raw code again now later a a' user h =
    verify_to-once verify_code (normalize_msisdn raw) code again now later a a' user h
