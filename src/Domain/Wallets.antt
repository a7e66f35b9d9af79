-- ===== src/Domain/Wallets.antt =====
-- The mobile-money wallets (backend/src/domain/wallets.js).
pub mod Dial
use ghost_merchant.Base.{
  ℕ, suc, ◌+◌, ◌/◌, ◌%◌, Bool, true, false, not, ◌&&◌, ◌||◌, Option, none, some, List, [], ◌∷◌,
  ◌++◌, length, drop, all, any, ◌==◌, if◌then◌else◌,
}
use ghost_merchant.Base.Text.{Text, text, text_eq, trim, is_digit}
use ghost_merchant.Base.Decimal.{decimal, pad_start}
use ghost_merchant.Domain.Phone.{Parsed, Phone, Country, so, us, valid, parse_phone}

-- A usable wallet, as `parseWallets` returns it.
pub record Wallet : Type 0 where
  pub id : Text
  pub name : Text
  pub network : Text
  pub merchant : Text
  pub template : Text

-- An entry of `WALLETS`.
pub record Spec : Type 0 where
  pub id : Text
  pub name : Text
  pub network : Text
  pub env : Text

abbrev spec : Text → Text → Text → Text → Spec
spec id name network env = record { id = id; name = name; network = network; env = env }

-- `WALLETS`
pub specs : List Spec
specs =
    spec (text "evc") (text "EVC Plus") (text "Hormuud") (text "EVC")
    ∷ spec (text "edahab") (text "eDahab") (text "Somtel") (text "EDAHAB")
    ∷ spec (text "zaad") (text "Zaad") (text "Telesom") (text "ZAAD")
    ∷ spec (text "sahal") (text "Sahal") (text "Golis") (text "SAHAL")
    ∷ []

unfoldable pub has_prefix : Text → Text → Bool
has_prefix [] s = true
has_prefix (c ∷ p) [] = false
has_prefix (c ∷ p) (d ∷ s) = c == d && has_prefix p s

-- How often a text occurs; the two that are counted do not overlap themselves.
unfoldable pub occurrences : Text → Text → ℕ
occurrences p [] = 0
occurrences p (c ∷ s) =
    let rest = occurrences p s in if has_prefix p (c ∷ s) then suc rest else rest

-- `s.replace(p, r)`, which replaces the first occurrence
unfoldable pub replace_first : Text → Text → Text → Text
replace_first p r [] = []
replace_first p r (c ∷ s) =
    let rest = replace_first p r s in
    if has_prefix p (c ∷ s) then r ++ drop (length p) (c ∷ s) else c ∷ rest

-- `[\d*.]`
abbrev is_dial_char : ℕ → Bool
is_dial_char c = is_digit c || c == b'*' || c == b'.'

dial_rest : Text → Bool
dial_rest [] = false
dial_rest (c ∷ s) = text_eq (c ∷ s) (text "%23") || (is_dial_char c && dial_rest s)

dial_body : Text → Bool
dial_body [] = false
dial_body (c ∷ s) = is_dial_char c && dial_rest s

-- `/^\*[\d*.]+%23$/`
unfoldable pub is_dial : Text → Bool
unfolding dial_body dial_rest
is_dial [] = false
is_dial (c ∷ s) = c == b'*' && dial_body s

unfoldable pub num_mark : Text
num_mark = text "{NUM}"

unfoldable pub amt_mark : Text
amt_mark = text "{AMT}"

-- `templateProblem`
unfoldable pub template_problem : Text → Option Text
template_problem template =
    if not (occurrences num_mark template == 1)
    then some (text "must contain {NUM} exactly once")
    else if not (occurrences amt_mark template == 1)
    then some (text "must contain {AMT} exactly once")
    else if any (λ c. c == b'#') template
    then some (text "must end in %23, not a bare # (Android truncates at #)")
    else if is_dial
        (replace_first amt_mark (text "10.00") (replace_first num_mark (text "612345678") template))
    then none
    else some (text "must look like *712*{NUM}*{AMT}%23 — only digits, * and a final %23")

-- What an entry comes to: nothing, an error, or a wallet with a warning.
pub data Entry : Type 0 where
  unset : Entry
  bad : Text → Entry
  good : Wallet → Option Text → Entry

abbrev mismatch : Spec → Phone → Option Text
mismatch w num =
    if text_eq num.operator w.network
    then none
    else some (
        w.name
        ++ text " usually runs on "
        ++ w.network
        ++ text ", but "
        ++ w.env
        ++ text "_MERCHANT looks like "
        ++ num.operator)

pub with_template : Spec → Phone → Text → Option Text → Entry
with_template w num template (some problem) =
    bad (w.name ++ text ": " ++ w.env ++ text "_USSD " ++ problem)
with_template w num template none =
    good
      (record {
        id = w.id;
        name = w.name;
        network = w.network;
        merchant = num.national;
        template = template;
      })
      (mismatch w num)

pub with_number : Spec → Text → Parsed → Entry
with_number w template (valid num) = elim num.country [
  | so ↦ with_template w num template (template_problem template)
  | us ↦ bad (w.name ++ text ": " ++ w.env ++ text "_MERCHANT is not a valid Somali number")
]
with_number w template _ =
    bad (w.name ++ text ": " ++ w.env ++ text "_MERCHANT is not a valid Somali number")

-- The body of the loop; a variable that is not set is an empty text.
pub read_wallet : (Text → Text) → Spec → Entry
read_wallet env w =
    let raw_num = trim (env (w.env ++ text "_MERCHANT")) in
    let template = trim (env (w.env ++ text "_USSD")) in
    if length raw_num == 0 && length template == 0
    then unset
    else if length raw_num == 0 || length template == 0
    then bad (
        w.name
        ++ text ": set both "
        ++ w.env
        ++ text "_MERCHANT and "
        ++ w.env
        ++ text "_USSD, or neither")
    else with_number w template (parse_phone raw_num)

pub record Wallets : Type 0 where
  pub wallets : List Wallet
  pub errors : List Text
  pub warnings : List Text

abbrev warn : Option Text → List Text → List Text
warn none ws = ws
warn (some w) ws = w ∷ ws

pub with_entry : Entry → Wallets → Wallets
with_entry unset r = r
with_entry (bad e) r = record r { errors = e ∷ r.errors }
with_entry (good w warning) r = record r {
  wallets = w ∷ r.wallets;
  warnings = warn warning r.warnings;
}

pub read_wallets : (Text → Text) → List Spec → Wallets
read_wallets env [] = record { wallets = []; errors = []; warnings = [] }
read_wallets env (w ∷ ws) = with_entry (read_wallet env w) (read_wallets env ws)

-- `parseWallets`
unfoldable pub parse_wallets : (Text → Text) → Wallets
parse_wallets env = read_wallets env specs

-- `Number(amount).toFixed(2)` of an amount in cents
unfoldable pub to_fixed : ℕ → Text
to_fixed cents = decimal (cents / 100) ++ b'.' ∷ pad_start 2 (decimal (cents % 100))

-- `buildWalletUri`
unfoldable pub build_wallet_uri : Wallet → ℕ → Text
build_wallet_uri wallet cents =
    text "tel:"
    ++ replace_first amt_mark (to_fixed cents)
        (replace_first num_mark wallet.merchant wallet.template)
