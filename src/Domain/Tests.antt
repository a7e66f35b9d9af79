-- ===== src/Domain/Tests.antt =====
-- The rules at concrete inputs.
use ghost_merchant.Base.{replicate}
use ghost_merchant.Base.Int.{pos}
use ghost_merchant.Domain.Wallets.{Wallet}
use ghost_merchant.Domain.Webhook.{Callback}
use ghost_merchant.Domain.Webhook.Signed.{Signed}
use ghost_merchant.Base.{◌≡◌, ◌↔◌, refl, true, none, some, List, [], ◌∷◌}
use ghost_merchant.Base.Text.{Text, text, trim, text_eq}
use ghost_merchant.Domain.Access.{
  Auth, Owned, driver, can_access_order, MayAccess, can_access_order-MayAccess,
}
use ghost_merchant.Domain.Rotation.{Candidate, pick_driver}
use ghost_merchant.Domain.Rotation.Fair.{IsFair, pick_driver-IsFair}
use ghost_merchant.Domain.Phone.{parse_phone, Phone, so, valid}
use ghost_merchant.Domain.Phone.Canonical.{parse_phone-e164}

abbrev drivers : List Candidate
drivers =
    record {
      id = 1;
      name = text "Asha";
      active = true;
      ready = true;
      active_orders = 1;
      last_assigned_at = some 5;
    }
    ∷ []

pick_driver-IsFair_example : IsFair 3 drivers (pick_driver drivers 3)
pick_driver-IsFair_example = pick_driver-IsFair drivers 3

abbrev asha : Auth
asha = record { role = driver; uid = none; id = some (text "1") }

abbrev parcel : Owned
parcel = record { user_id = some 9; driver_id = some (text "1") }

can_access_order-MayAccess_example :
    (can_access_order (some asha) (some parcel) ≡ true) ↔ MayAccess asha parcel
can_access_order-MayAccess_example = can_access_order-MayAccess asha parcel

abbrev hormuud : Phone
hormuud = record {
  country = so;
  national = text "612345678";
  prefix = text "61";
  operator = text "Hormuud";
  can_ussd = true;
  e164 = text "+252612345678";
}

parse_phone-e164_example : parse_phone (text "+252612345678") ≡ valid hormuud
unfolding parse_phone text trim text_eq
parse_phone-e164_example = parse_phone-e164 (text "061 234 5678") hormuud refl

abbrev evc : Wallet
evc = record {
  id = text "evc";
  name = text "EVC Plus";
  network = text "Hormuud";
  merchant = 54 ∷ 49 ∷ [];
  template = text "*712*{NUM}*{AMT}%23";
}

-- The keyed hash of the example is 64 zeros.
abbrev zeros : Text → Text → Text
zeros secret payload = replicate 64 48

abbrev callback : Callback
callback = record { timestamp = some (pos 100); signature = some (replicate 64 48); raw_body = [] }
