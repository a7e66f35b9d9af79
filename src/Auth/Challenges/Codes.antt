-- ===== src/Auth/Challenges/Codes.antt =====
-- What a code that was just issued is good for, and that it is not sent again within a minute.
use ghost_merchant.Base.{
  ℕ, ◌+◌, ◌-◌, ◌<◌, ◌≡◌, refl, ap, sym, Bool, true, Option, none, some, List, [], ◌∷◌, Option-cases,
  inl, inr, arith,
}
use ghost_merchant.Base.Text.{Text, text_eq-eq}
use ghost_merchant.Domain.Phone.{normalize_msisdn}
use ghost_merchant.Db.Tx.{Result, ok, err, Error, otp_cooldown}
use ghost_merchant.Auth.Otp.{
  otp_ttl_ms, max_attempts, resend_cooldown_ms, cooldown_remaining_ms, review_code_for, Review,
}
use ghost_merchant.Auth.Challenges.{
  Challenge, User, Accounts, delete_codes, issue, issue_challenge, try_code, consume_row, consume,
  answer, consume_challenge, by_phone, phone_account, user_by_phone, same_text, verify_to, Senders,
  Issued, request_otp, request_to, send_issued, sent_or_deleted, verify_otp, phone_code,
}
use ghost_merchant.Auth.Challenges.Guesses.{challenge, find_code-update, find_code-append}

-- The row of a challenge that was just issued.
pub record Fresh (hashed : Text) (now : ℕ) (row : Option Challenge) : Type 0 where
  pub c : Challenge
  pub there : row ≡ some c
  pub is_hash : c.code_hash ≡ hashed
  pub lives : c.expires_at ≡ now + otp_ttl_ms
  pub untried : c.attempts ≡ 0
  pub sent : c.last_sent_at ≡ now

issue-Fresh :
    (key hashed : Text) (now : ℕ) (o : Option Challenge) (a a' : Accounts)
    → challenge key a ≡ o
    → issue key hashed resend_cooldown_ms now o a ≡ (none, a')
    → Fresh hashed now (challenge key a')
unfolding issue
issue-Fresh key hashed now none a a' missing h =
    let row : Challenge = record {
      key = key;
      code_hash = hashed;
      expires_at = now + otp_ttl_ms;
      attempts = 0;
      last_sent_at = now;
    } in
    record {
      c = row;
      there = ground (arith, find_code-append key a.otp_codes row refl);
      is_hash = refl;
      lives = refl;
      untried = refl;
      sent = refl;
    }
issue-Fresh key hashed now (some c) a a' there h =
    let renew : Challenge → Challenge = λ x. record x {
      code_hash = hashed;
      expires_at = now + otp_ttl_ms;
      attempts = 0;
      last_sent_at = now;
    } in
    record {
      c = renew c;
      there = ground (arith, find_code-update key renew a.otp_codes c);
      is_hash = refl;
      lives = refl;
      untried = refl;
      sent = refl;
    }

-- A second code for a key within a minute of the first is refused with the rest of the wait, and
-- the first code stands as it did.
pub issue_challenge_twice :
    (key first second : Text) (now later : ℕ) (a a' : Accounts)
    → issue_challenge key first now a ≡ (none, a')
    → later < now + resend_cooldown_ms
    → issue_challenge key second later a'
      ≡ (some (otp_cooldown (now + resend_cooldown_ms - later)), a')
unfolding issue_challenge issue cooldown_remaining_ms
issue_challenge_twice key first second now later a a' sent soon =
    let f = issue-Fresh key first now (challenge key a) a a' refl sent in
    ground (arith, f.there, f.sent)

same_text-eq : (t : Text) (o : Option Text) → same_text t o ≡ true → o ≡ some t
same_text-eq t none h = ground arith
same_text-eq t (some u) h = ap some (sym (text_eq-eq t u h))

user_by_phone-phone :
    (phone : Text) (us : List User) (u : User)
    → user_by_phone phone us ≡ some u
    → u.phone_number ≡ some phone
user_by_phone-phone phone [] u h = ground arith
user_by_phone-phone phone (x ∷ xs) u h =
    ground (arith, same_text-eq phone x.phone_number, user_by_phone-phone phone xs u)

by_phone-phone : (phone : Text) (a : Accounts) → (by_phone phone a).0.phone_number ≡ some phone
unfolding by_phone phone_account
by_phone-phone phone a = elim (Option-cases (user_by_phone phone a.users)) [
  | inl new ↦ ground arith
  | inr (u, known) ↦ ground (arith, user_by_phone-phone phone a.users u)
]

consume-right :
    (verify_code : Text → Text → Bool) (key code : Text) (account : Accounts → User × Accounts)
    (now : ℕ) (a : Accounts) (c : Challenge)
    → challenge key a ≡ some c
    → now < c.expires_at
    → c.attempts < max_attempts
    → verify_code code c.code_hash ≡ true
    → consume verify_code key code account now a
      ≡ (some (account (delete_codes key a)).0, (account (delete_codes key a)).1)
unfolding consume consume_row try_code
consume-right verify_code key code account now a c there early room right = ground arith

sent_or_deleted-ok :
    (key address code : Text) (sent : Result Text) (a a' : Accounts) (i : Issued)
    → sent_or_deleted key address code sent a ≡ (ok i, a')
    → (i.code ≡ code) × (a ≡ a')
unfolding sent_or_deleted
sent_or_deleted-ok key address code (ok t) a a' i h = ground arith
sent_or_deleted-ok key address code (err e) a a' i h = ground arith

send_issued-ok :
    (key address code : Text) (sent : Result Text) (o : Option Error × Accounts) (a' : Accounts)
    (i : Issued)
    → send_issued key address code sent o ≡ (ok i, a')
    → (i.code ≡ code) × (o ≡ (none, a'))
unfolding send_issued
send_issued-ok key address code sent (some e, a) a' i h = ground arith
send_issued-ok key address code sent (none, a) a' i h =
    ground (arith, sent_or_deleted-ok key address code sent a a' i)

-- What a verification of a number gives when it is to succeed.
pub record SignsIn (verify_code : Text → Text → Bool) (phone : Option Text) (code : Text) (now : ℕ)
    (a : Accounts) : Type 0 where
  user : User
  after : Accounts
  verified : verify_to verify_code phone code now a ≡ (ok user, after)
  of_phone : user.phone_number ≡ phone

request_to-verify :
    (s : Senders) (verify_code : Text → Text → Bool) (review : Option Review) (drawn : Text)
    (now later : ℕ) (phone : Option Text) (a a' : Accounts) (i : Issued)
    → ((code : Text) → verify_code code (s.hash_code code) ≡ true)
    → request_to s review drawn now phone a ≡ (ok i, a')
    → later < now + otp_ttl_ms
    → SignsIn verify_code phone i.code later a'
unfolding request_to verify_to consume_challenge answer issue_challenge
request_to-verify s verify_code review drawn now later none a a' i right h early =
    absurd (ground arith)
request_to-verify s verify_code review drawn now later (some phone) a a' i right h early =
    let code = phone_code (review_code_for phone review) drawn in
    let (same, issued) = send_issued-ok phone phone code _ _ a' i h in
    let f = issue-Fresh phone (s.hash_code code) now (challenge phone a) a a' refl issued in
    record {
      user = (by_phone phone (delete_codes phone a')).0;
      after = (by_phone phone (delete_codes phone a')).1;
      verified = ap answer (
          consume-right verify_code phone i.code (by_phone phone) later a' f.c f.there
            (omega (arith, f.lives, early)) (omega (arith, f.untried))
            (ground (arith, right code, f.is_hash, same)));
      of_phone = by_phone-phone phone (delete_codes phone a');
    }

-- The code of a request that succeeds signs its number in for five minutes, where the check of a
-- code accepts the hash of that code: the account that comes back has the number.
pub request_otp-verify :
    (s : Senders) (verify_code : Text → Text → Bool) (review : Option Review) (drawn : Text)
    (now later : ℕ) (raw : Text) (a a' : Accounts) (i : Issued)
    → ((code : Text) → verify_code code (s.hash_code code) ≡ true)
    → request_otp s review drawn now raw a ≡ (ok i, a')
    → later < now + otp_ttl_ms
    → (user : User) × (after : Accounts) × (verify_otp verify_code raw i.code later a'
        ≡ (ok user, after))
      × (user.phone_number ≡ normalize_msisdn raw)
unfolding request_otp verify_otp
request_otp-verify s verify_code review drawn now later raw a a' i right h early =
    let r =
      request_to-verify s verify_code review drawn now later (normalize_msisdn raw) a a' i right h
        early in
    (r.user, r.after, r.verified, r.of_phone)
