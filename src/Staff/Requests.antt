-- ===== src/Staff/Requests.antt =====
-- Requests to be given a staff account (backend/src/commands/accessRequests.js). Lower case, the random
-- part of a key, and which objects the storage manages to delete are parameters. Rows stand in the
-- order of their creation.
pub mod Documents
use ghost_merchant.Base.{
  ℕ, suc, ◌*◌, Bool, true, false, not, ◌&&◌, ◌||◌, Option, none, some, is_some, or_else, List, [],
  ◌∷◌, ◌++◌, ◌==◌, length, filter, take, ltb, leb, if◌then◌else◌,
}
use ghost_merchant.Base.Decimal.{decimal}
use ghost_merchant.Base.Table.{find_by, update_by}
use ghost_merchant.Base.Text.{Text, text, text_eq, trim}
use ghost_merchant.Domain.Phone.{Parsed, valid, parse_phone, phone_reason}
use ghost_merchant.Domain.Email.{normalize_email}
use ghost_merchant.Db.Tx.{Result, ok, err, Error, access_error}
use ghost_merchant.Staff.{
  Role, driver, operator, AccessRequest, ReviewStatus, new_request, contacted, approved, declined,
  Staff,
}

abbrev pub find_request : ℕ → List AccessRequest → Option AccessRequest
find_request = find_by λ r. r.id

abbrev pub update_request : ℕ → (AccessRequest → AccessRequest) → Staff → Staff
update_request id f st = record st { requests = update_by (λ r. r.id) id f st.requests }

abbrev pub same_role : Role → Role → Bool
same_role driver driver = true
same_role operator operator = true
same_role _ _ = false

-- `status: { in: ['new', 'contacted'] }`
abbrev pub is_open : ReviewStatus → Bool
is_open new_request = true
is_open contacted = true
is_open approved = false
is_open declined = false

-- `['approved', 'declined'].includes(status)`
abbrev pub is_decided : ReviewStatus → Bool
is_decided status = not (is_open status)

-- the open request of a number and a role
abbrev pub find_open : Text → Role → List AccessRequest → Option AccessRequest
find_open phone role [] = none
find_open phone role (r ∷ rs) =
    if text_eq r.phone phone && same_role r.role role && is_open r.status
    then some r
    else find_open phone role rs

-- What is asked for: a role that is none of the two is `none`.
pub record Asked : Type 0 where
  pub role : Option Role
  pub name : Text
  pub phone : Text
  pub email : Text
  pub message : Option Text

-- The fields once they are checked.
pub record Applicant : Type 0 where
  pub role : Role
  pub name : Text
  pub phone : Text
  pub email : Text
  pub message : Option Text

abbrev bad_request : Text → Error
bad_request why = access_error why 400

-- `message ? String(message).trim().slice(0, 1000) : null`
abbrev clean_message : Option Text → Option Text
clean_message none = none
clean_message (some []) = none
clean_message (some (c ∷ s)) = some (take 1000 (trim (c ∷ s)))

check_email : Role → Text → Text → Option Text → Option Text → Result Applicant
check_email role name phone none message =
    err (bad_request (text "enter a valid email — your setup code goes there"))
check_email role name phone (some email) message = ok (record {
  role = role;
  name = name;
  phone = phone;
  email = email;
  message = clean_message message;
})

check_phone : (Text → Text) → Role → Text → Asked → Parsed → Result Applicant
unfolding check_email
check_phone to_lower role name a (valid p) =
    check_email role name p.e164 (normalize_email to_lower a.email) a.message
check_phone to_lower role name a refusal =
    err (bad_request (text "Invalid phone number: " ++ phone_reason refusal))

check_name : (Text → Text) → Role → Text → Asked → Result Applicant
unfolding check_phone
check_name to_lower role name a =
    if ltb (length name) 2
    then err (bad_request (text "please give your name"))
    else if ltb 80 (length name)
    then err (bad_request (text "that name is too long"))
    else check_phone to_lower role name a (parse_phone a.phone)

-- the checks of `submitAccessRequest`, in their order
unfoldable pub check_asked : (Text → Text) → Asked → Result Applicant
unfolding check_name
check_asked to_lower a = elim a.role [
  | none ↦ err (bad_request (text "choose driver or operator"))
  | some role ↦ check_name to_lower role (trim a.name) a
]

abbrev request_row : ℕ → ℕ → Applicant → AccessRequest
request_row id now a = record {
  id = id;
  role = a.role;
  name = a.name;
  phone = a.phone;
  email = some a.email;
  message = a.message;
  status = new_request;
  id_front_key = none;
  id_back_key = none;
  id_document_at = none;
  reviewed_at = none;
  reviewed_by = none;
  review_note = none;
  created_at = now;
  account_created_at = none;
  account_ref = none;
}

-- the id, and whether it was there already
unfoldable pub record_request :
    ℕ → Applicant → Option AccessRequest → Staff → Result (ℕ × Bool) × Staff
record_request now a (some r) st = (
  ok (r.id, true),
  update_request r.id (λ x. record x { name = a.name; email = some a.email; message = a.message })
      st,
)
record_request now a none st = (
  ok (st.next_id, false),
  record st {
    requests = st.requests ++ request_row st.next_id now a ∷ [];
    next_id = suc st.next_id;
  },
)

unfoldable pub submit_checked : ℕ → Result Applicant → Staff → Result (ℕ × Bool) × Staff
submit_checked now (err e) st = (err e, st)
submit_checked now (ok a) st = record_request now a (find_open a.phone a.role st.requests) st

-- `submitAccessRequest`
unfoldable pub submit_access_request : (Text → Text) → ℕ → Asked → Staff → Result (ℕ × Bool) × Staff
submit_access_request to_lower now a st = submit_checked now (check_asked to_lower a) st

-- `ID_MIME`
unfoldable pub id_extension : Text → Option Text
id_extension mime =
    if text_eq mime (text "image/jpeg")
    then some (text "jpg")
    else if text_eq mime (text "image/png")
    then some (text "png")
    else if text_eq mime (text "image/webp")
    then some (text "webp")
    else if text_eq mime (text "image/heic")
    then some (text "heic")
    else none

abbrev pub max_id_bytes : ℕ
max_id_bytes = 6 * 1024 * 1024

-- `ID_SIDES`
pub data Side : Type 0 where
  front back : Side

abbrev side_name : Side → Text
side_name front = text "front"
side_name back = text "back"

abbrev pub key_of : Side → AccessRequest → Option Text
key_of front r = r.id_front_key
key_of back r = r.id_back_key

abbrev pub with_key : Side → Text → ℕ → AccessRequest → AccessRequest
with_key front key now r = record r { id_front_key = some key; id_document_at = some now }
with_key back key now r = record r { id_back_key = some key; id_document_at = some now }

-- `deleteObject`, which fails for the keys that `deletes` refuses; the failure is caught
abbrev pub delete_object : (Text → Bool) → Text → List Text → List Text
delete_object deletes key objects =
    if deletes key then filter (λ k. not (text_eq k key)) objects else objects

abbrev pub delete_old : (Text → Bool) → Option Text → List Text → List Text
delete_old deletes none objects = objects
delete_old deletes (some key) objects = delete_object deletes key objects

-- `id-documents/<request>-<side>-<uuid>.<ext>`
unfoldable pub id_key : ℕ → Side → Text → Text → Text
id_key id side uuid ext =
    text "id-documents/"
    ++ decimal id
    ++ text "-"
    ++ side_name side
    ++ text "-"
    ++ uuid
    ++ text "."
    ++ ext

unfoldable pub store_document :
    (Text → Bool)
    → ℕ
    → ℕ
    → Side
    → Text
    → Option AccessRequest
    → Staff
    → Result (Bool × Bool) × Staff
store_document deletes now id side key none st =
    (err (access_error (text "request not found") 404), st)
store_document deletes now id side key (some r) st =
    if is_decided r.status
    then (err (access_error (text "this request has already been decided") 409), st)
    else (
      ok (
        is_some (with_key side key now r).id_front_key,
        is_some (with_key side key now r).id_back_key,
      ),
      update_request r.id (with_key side key now)
          (record st { objects = delete_old deletes (key_of side r) (st.objects ++ key ∷ []) }),
    )

-- `attachIdDocument`, of a body of `size` bytes; a side that is none of the two is `none`
unfoldable pub attach_id_document :
    (Text → Text)
    → (Text → Bool)
    → ℕ
    → Text
    → ℕ
    → Option Side
    → ℕ
    → Text
    → Staff
    → Result (Bool × Bool) × Staff
attach_id_document to_lower deletes now uuid id none size mime st =
    (err (bad_request (text "side must be front or back")), st)
attach_id_document to_lower deletes now uuid id (some side) size mime st =
    if size == 0
    then (err (bad_request (text "no image received")), st)
    else if ltb max_id_bytes size
    then (err (bad_request (text "image is too large (max 6MB)")), st)
    else (elim (id_extension (to_lower mime)) [
      | none ↦ (err (bad_request (text "send a JPEG, PNG, WebP or HEIC image")), st)
      | some ext ↦
          store_document deletes now id side (id_key id side uuid ext) (find_request id st.requests)
            st
    ])

-- `listAccessRequests`
unfoldable pub list_access_requests : Bool → Staff → List AccessRequest
list_access_requests include_closed st = take 200 (
    filter
      (λ r. include_closed || is_open r.status || (elim r.status [
        | approved ↦ not (is_some r.account_created_at)
        | new_request ↦ false
        | contacted ↦ false
        | declined ↦ false
      ]))
      st.requests)

-- `countOpenAccessRequests`
unfoldable pub count_open_access_requests : Staff → ℕ
count_open_access_requests st = length (
    filter
      (λ r. elim r.status [
        | new_request ↦ true
        | contacted ↦ false
        | approved ↦ false
        | declined ↦ false
      ])
      st.requests)

-- `note ? String(note).slice(0, 500) : null`
abbrev clip_note : Option Text → Option Text
clip_note none = none
clip_note (some []) = none
clip_note (some (c ∷ s)) = some (take 500 (c ∷ s))

abbrev pub reviewed : ℕ → ReviewStatus → Option Text → Text → AccessRequest → AccessRequest
reviewed now status why by r = record r {
  status = status;
  reviewed_at = some now;
  reviewed_by = some by;
  review_note = clip_note why;
}

abbrev pub forgotten : AccessRequest → AccessRequest
forgotten r = record r { id_front_key = none; id_back_key = none }

-- the decision, and the end of the documents that it was made on
unfoldable pub review_found :
    (Text → Bool) → ℕ → ReviewStatus → Option Text → Text → AccessRequest → Staff → Staff
review_found deletes now status why by r st =
    let st' = update_request r.id (reviewed now status why by) st in
    if is_decided status
    then update_request r.id forgotten (record st' {
      objects = delete_old deletes r.id_back_key (delete_old deletes r.id_front_key st'.objects);
    })
    else st'

-- `reviewAccessRequest`: the row that it returns is the one before its keys are cleared. A status
-- that is none of the three that can be given is `none`, and so is 'new'.
unfoldable pub review_access_request :
    (Text → Bool)
    → ℕ
    → ℕ
    → Option ReviewStatus
    → Option Text
    → Text
    → Staff
    → Result AccessRequest × Staff
review_access_request deletes now id none why by st =
    (err (bad_request (text "unknown review status")), st)
review_access_request deletes now id (some new_request) why by st =
    (err (bad_request (text "unknown review status")), st)
review_access_request deletes now id (some status) why by st = elim (find_request id st.requests) [
  | none ↦ (err (access_error (text "request not found") 404), st)
  | some r ↦ (ok (reviewed now status why by r), review_found deletes now status why by r st)
]
