-- ===== src/Routes/PaymentsWebhook/Replay.antt =====
-- A callback that comes again is answered again and applied once.
use ghost_merchant.Base.{
  ℕ, ◌≡◌, refl, true, Option, none, some, [], ◌∷◌, all, or_else, arith, Bool-cases, Option-cases,
  inl, inr,
}
use ghost_merchant.Base.Text.{Text, text, text_eq_refl}
use ghost_merchant.Domain.StateMachine.{Status}
use ghost_merchant.Domain.Ids.{is_uuid}
use ghost_merchant.Domain.PaymentRef.{normalize_reference, is_reference_char}
use ghost_merchant.Domain.PaymentRef.Laws.{normalize_reference_idem}
use ghost_merchant.Domain.Webhook.{Callback, verify_webhook}
use ghost_merchant.Db.{Db, Order}
use ghost_merchant.Db.Tx.{Result, ok, err}
use ghost_merchant.Db.Rows.{find_receipt}
use ghost_merchant.Commands.Payments.{reference_or_throw, payment_row}
use ghost_merchant.Commands.Payments.Confirmation.{confirm_payment-Confirmed, find_receipt-append}
use ghost_merchant.Routes.PaymentsWebhook.{
  Body, Service, applied, duplicate, payment_status, after_confirm, is_seen, apply_payment,
  with_reference, with_amount, with_order, with_body, verified, receive,
}

after_confirm-applied :
    (id ref : Text) (amount payer : Option Text) (p : Result Order × Db) (s : Status) (db : Db)
    → after_confirm id ref amount payer p ≡ (applied s, db)
    → (o : Order) × (p ≡ (ok o, db))
unfolding after_confirm
after_confirm-applied id ref amount payer (ok o, db') s db h = (o, ground arith)
after_confirm-applied id ref amount payer (err e, db') s db h =
    elim (Option-cases (payment_status e)) [
      | inl other ↦ absurd (ground arith)
      | inr (n, known) ↦ absurd (ground arith)
    ]

-- The reference of a confirmation is the one that was handed over, where that is in normal form.
normal_reference :
    (to_upper : Text → Text) (ref got : Text)
    → normalize_reference to_upper ref ≡ some ref
    → reference_or_throw to_upper (some ref) ≡ ok got
    → got ≡ ref
unfolding reference_or_throw
normal_reference to_upper ref got normal h = ground arith

module _ (w : Service)
    (fixed : (s : Text) → all is_reference_char s ≡ true → w.to_upper s ≡ s) where
  apply_payment-seen :
      (now later : ℕ) (id ref : Text) (amount payer : Option Text) (s : Status) (db db' : Db)
      → w.spell (w.uuid id) ≡ id
      → normalize_reference w.to_upper ref ≡ some ref
      → apply_payment w now id ref amount payer db ≡ (applied s, db')
      → apply_payment w later id ref amount payer db' ≡ (duplicate, db')
  unfolding apply_payment is_seen payment_row
  apply_payment-seen now later id ref amount payer s db db' spelled normal h =
      elim (Bool-cases (is_seen w.spell id (find_receipt ref db.payments))) [
        | inl seen ↦ absurd (ground arith)
        | inr fresh ↦
            let (o, went) = after_confirm-applied id ref amount payer _ s db' (ground arith) in
            let (got, before, known, c) =
              confirm_payment-Confirmed w.to_upper w.to_cents now (w.uuid id) (some ref) amount
                (text "system:mobile-money") db db' o went in
            let same = normal_reference w.to_upper ref got normal known in
            ground (
              arith,
              same,
              c.payments,
              find_receipt-append got db.payments
                  (payment_row (w.uuid id) got (text "system:mobile-money") before) c.checks.unused
                  refl,
              spelled,
              text_eq_refl id,
            )
      ]

  with_reference-replay :
      (now later : ℕ) (id : Text) (ref amount payer : Option Text) (s : Status) (db db' : Db)
      → w.spell (w.uuid id) ≡ id
      → ((r : Text) → ref ≡ some r → normalize_reference w.to_upper r ≡ some r)
      → with_reference w now id ref amount payer db ≡ (applied s, db')
      → with_reference w later id ref amount payer db' ≡ (duplicate, db')
  unfolding with_reference
  with_reference-replay now later id none amount payer s db db' spelled normal h =
      absurd (ground arith)
  with_reference-replay now later id (some []) amount payer s db db' spelled normal h =
      absurd (ground arith)
  with_reference-replay now later id (some (c ∷ r)) amount payer s db db' spelled normal h =
      apply_payment-seen now later id (c ∷ r) amount payer s db db' spelled (normal (c ∷ r) refl) h

  with_amount-replay :
      (now later : ℕ) (id raw : Text) (amount : Option (Option Text)) (payer : Option Text)
      (s : Status) (db db' : Db)
      → w.spell (w.uuid id) ≡ id
      → with_amount w now id raw amount payer db ≡ (applied s, db')
      → with_amount w later id raw amount payer db' ≡ (duplicate, db')
  unfolding with_amount
  with_amount-replay now later id raw none payer s db db' spelled h = absurd (ground arith)
  with_amount-replay now later id raw (some a) payer s db db' spelled h =
      with_reference-replay now later id (normalize_reference w.to_upper raw) a payer s db db'
        spelled (λ r known. (normalize_reference_idem w.to_upper fixed raw r known).1) h

  with_order-replay :
      (now later : ℕ) (b : Body) (id : Option Text) (s : Status) (db db' : Db)
      → ((i : Text) → id ≡ some i → w.spell (w.uuid i) ≡ i)
      → with_order w now b id db ≡ (applied s, db')
      → with_order w later b id db' ≡ (duplicate, db')
  unfolding with_order
  with_order-replay now later b none s db db' spelled h = absurd (ground arith)
  with_order-replay now later b (some i) s db db' spelled h = elim (Bool-cases (is_uuid i)) [
    | inl valid ↦
        let again =
          with_amount-replay now later i (or_else b.reference []) b.amount b.payer s db db'
            (spelled i refl) (ground arith) in
        ground arith
    | inr bad ↦ absurd (ground arith)
  ]

  with_body-replay :
      (now later : ℕ) (b : Option Body) (s : Status) (db db' : Db)
      → ((b' : Body) (i : Text) → b ≡ some b' → b'.order_id ≡ some i → w.spell (w.uuid i) ≡ i)
      → with_body w now b db ≡ (applied s, db')
      → with_body w later b db' ≡ (duplicate, db')
  unfolding with_body
  with_body-replay now later none s db db' spelled h = absurd (ground arith)
  with_body-replay now later (some b) s db db' spelled h =
      with_order-replay now later b b.order_id s db db' (λ i known. spelled b i refl known) h

  verified-applied :
      (now : ℕ) (c : Callback) (why : Option Text) (s : Status) (db db' : Db)
      → verified w now c why db ≡ (applied s, db')
      → with_body w now (w.parse_json c.raw_body) db ≡ (applied s, db')
  unfolding verified
  verified-applied now c none s db db' h = h
  verified-applied now c (some why) s db db' h = absurd (ground arith)

  -- A provider that repeats a callback hears yes again, and the money is counted once: where a callback
  -- moved an order on, the same body sent again at any time, with a signature that verifies then, is
  -- answered as a duplicate and changes nothing. The order id of the body has to be spelled as the
  -- database spells it, and upper case has to leave the characters of a reference alone.
  pub receive-replay :
      (now later : ℕ) (c c' : Callback) (s : Status) (db db' : Db)
      → ((b : Body) (i : Text)
          → w.parse_json c.raw_body ≡ some b
          → b.order_id ≡ some i
          → w.spell (w.uuid i) ≡ i)
      → receive w now c db ≡ (applied s, db')
      → c'.raw_body ≡ c.raw_body
      → verify_webhook w.hmac w.secret c' later ≡ none
      → receive w later c' db' ≡ (duplicate, db')
  unfolding receive verified
  receive-replay now later c c' s db db' spelled h same trusted = elim (Bool-cases w.is_api) [
    | inl api ↦
        let went =
          verified-applied now c (verify_webhook w.hmac w.secret c now) s db db' (ground arith) in
        let again = with_body-replay now later (w.parse_json c.raw_body) s db db' spelled went in
        ground (arith, again, same, trusted)
    | inr closed ↦ absurd (ground arith)
  ]
