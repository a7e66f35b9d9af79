-- ===== src/Staff/Tests.antt =====
-- A shop with one admin, a request for an account, and its claim.
use ghost_merchant.Base.{◌≡◌, refl, true, false, none, some, [], ◌∷◌}
use ghost_merchant.Base.Text.{Text, text, text_eq, trim}
use ghost_merchant.Domain.Phone.{parse_phone}
use ghost_merchant.Db.Tx.{Result, ok, err, Error}
use ghost_merchant.Auth.Passwords.{Secrets}
use ghost_merchant.Staff.{driver, Operator, AccessRequest, approved, Staff, transaction}
use ghost_merchant.Staff.Operators.LastAdmin.{
  HasAdmin, login, set_active, set_admin, run, run-HasAdmin,
}
use ghost_merchant.Staff.Requests.{find_request, reviewed, forgotten, review_access_request}
use ghost_merchant.Staff.Requests.Documents.{IsGone, review-destroys}
use ghost_merchant.Staff.Rules.{generate_setup_code}
use ghost_merchant.Staff.Accounts.{
  Draw, NewAccount, Created, create_staff_account, phone_or_throw, create_with, create_body,
  create_from, fields_of, of_request, make_account, create_account, create_driver, issue_code,
  mark_request, email_or_null,
}
use ghost_merchant.Staff.Accounts.OneAccount.{create_staff_account_once}
use ghost_merchant.Staff.Setup.{Claimed, claim_setup}
use ghost_merchant.Staff.Setup.Claims.{Claims}

-- A hash that is the text itself.
abbrev secrets : Secrets
secrets = record {
  to_lower = λ s. s;
  hash_secret = λ s. s;
  verify_secret = text_eq;
  dummy_hash = [];
}

abbrev amina : Operator
amina = record {
  id = 1;
  username = text "amina";
  display_name = text "Amina";
  password_hash = [];
  active = true;
  must_change_password = false;
  last_login_at = none;
  created_by = none;
  is_admin = true;
  phone = none;
  email = none;
}

abbrev asked : AccessRequest
asked = record {
  id = 3;
  role = driver;
  name = text "Cali";
  phone = text "+252612345678";
  email = some (text "c@x.so");
  message = none;
  status = approved;
  id_front_key = some (text "front");
  id_back_key = none;
  id_document_at = none;
  reviewed_at = none;
  reviewed_by = none;
  review_note = none;
  created_at = 1;
  account_created_at = none;
  account_ref = none;
}

abbrev desk : Staff
desk = record {
  operators = amina ∷ [];
  drivers = [];
  invites = [];
  requests = asked ∷ [];
  objects = text "front" ∷ [];
  next_id = 5;
}

run-HasAdmin_example :
    HasAdmin (run secrets (set_active 1 false 2 ∷ set_admin 1 false ∷ login 3 [] [] ∷ []) desk)
run-HasAdmin_example =
    run-HasAdmin secrets (set_active 1 false 2 ∷ set_admin 1 false ∷ login 3 [] [] ∷ []) desk refl

abbrev answer_of : {A : Type 0} → Result A × Staff → A → A
answer_of (ok a, st) d = a
answer_of (err e, st) d = d

abbrev decision : Result AccessRequest × Staff
decision = review_access_request (λ k. true) 9 3 (some approved) none (text "amina") desk

review-destroys_example :
    (find_request 3 decision.1.requests
      ≡ some (forgotten (reviewed 9 approved none (text "amina") asked)))
    × IsGone asked.id_front_key decision.1.objects
    × IsGone asked.id_back_key decision.1.objects
unfolding review_access_request text
review-destroys_example =
    review-destroys (λ k. true) 9 3 approved none (text "amina") asked (answer_of decision asked)
      desk decision.1 refl refl (λ k e. refl) (λ k e. refl) refl

abbrev draw : Draw
draw = record {
  secrets = secrets;
  now = 9;
  drawn = 42;
  unclaimable = text "x";
  sms_available = false;
}

abbrev from_request : NewAccount
from_request = record {
  role = none;
  name = [];
  phone = [];
  username = [];
  email = none;
  created_by = some (text "amina");
  request_id = some (some 3);
}

abbrev made : Result Created × Staff
made = create_staff_account draw from_request desk

abbrev nothing : Created
nothing = record { role = driver; account = 0; phone = []; email = none; code = [] }

create_staff_account_once_example :
    (e : Error) × (create_staff_account draw from_request made.1 ≡ (err e, made.1))
unfolding create_staff_account create_with create_body create_from fields_of of_request make_account
    create_account create_driver issue_code mark_request transaction phone_or_throw email_or_null
    parse_phone generate_setup_code trim text text_eq
create_staff_account_once_example =
    create_staff_account_once draw draw from_request from_request 3 desk made.1
      (answer_of made nothing) refl refl refl

abbrev claim : Result Claimed × Staff
claim =
    claim_setup secrets 12 (some driver) (text "+252612345678") (text "00000042") (text "194758")
      made.1

abbrev nobody : Claimed
nobody = record { role = driver; name = []; username = none }
