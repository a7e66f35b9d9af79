-- ===== src/Domain/Ussd.antt =====
-- How an order is paid (backend/src/domain/ussd.js).
pub mod Offered
use ghost_merchant.Base.{
  ℕ, Bool, true, false, not, Option, none, some, List, [], ◌∷◌, ◌++◌, map, filter, if◌then◌else◌,
}
use ghost_merchant.Base.Text.{Text, text, text_eq}
use ghost_merchant.Domain.Phone.{Parsed, Phone, valid, parse_phone}
use ghost_merchant.Domain.Wallets.{Wallet, build_wallet_uri}

-- `forCustomer`
unfoldable pub for_customer : List Wallet → Text → List Wallet
for_customer wallets operator =
    filter (λ w. text_eq w.network operator) wallets
    ++ filter (λ w. not (text_eq w.network operator)) wallets

-- A wallet as the client sees it.
pub record Choice : Type 0 where
  pub id : Text
  pub name : Text
  pub ussd_uri : Text

-- `manual` with its note, or `ussd` with its options, the first of them again for old clients
pub data Instruction : Type 0 where
  manual : Text → Instruction
  ussd : Choice → List Choice → Instruction

abbrev pub choice : ℕ → Wallet → Choice
choice cents w = record { id = w.id; name = w.name; ussd_uri = build_wallet_uri w cents }

unfoldable pub with_options : List Choice → Instruction
with_options [] = manual (
    text
      "No mobile-money wallet is set up yet. Pay the operator directly and they will confirm this order.")
with_options (c ∷ cs) = ussd c (c ∷ cs)

abbrev pub not_somali : Instruction
not_somali = manual (
    text
      "Mobile-money payment is only available for Somali numbers. Pay the operator directly and they will confirm this order.")

unfoldable pub instruction_for : Parsed → ℕ → List Wallet → Instruction
instruction_for (valid p) cents wallets =
    if p.can_ussd
    then with_options (map (choice cents) (for_customer wallets p.operator))
    else not_somali
instruction_for _ cents wallets = not_somali

-- `buildPaymentInstruction`, of the order's phone and total
unfoldable pub build_payment_instruction : Text → ℕ → List Wallet → Instruction
build_payment_instruction user_phone cents wallets =
    instruction_for (parse_phone user_phone) cents wallets
