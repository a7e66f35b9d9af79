-- ===== src/Staff/Requests/Documents.antt =====
-- The documents of a request do not outlive the decision.
use ghost_merchant.Base.{
  ℕ, ◌≡◌, refl, sym, ap, ◌∙◌, subst, Bool, true, false, not, Option, none, some, List, [], ◌∷◌, any,
  filter, arith,
}
use ghost_merchant.Base.Table.{update_by, find_by_key, find_by-update_by}
use ghost_merchant.Base.Text.{Text, text_eq, text_eq_sym}
use ghost_merchant.Db.Tx.{ok}
use ghost_merchant.Staff.{
  AccessRequest, ReviewStatus, new_request, contacted, approved, declined, Staff,
}
use ghost_merchant.Staff.Requests.{
  find_request, is_decided, delete_old, reviewed, forgotten, review_found, review_access_request,
}

-- The key is in object storage.
abbrev pub is_stored : Text → List Text → Bool
is_stored key objects = any (text_eq key) objects

-- A key that a row had is not stored.
abbrev pub IsGone : Option Text → List Text → Type 0
IsGone none objects = Unit {0}
IsGone (some key) objects = is_stored key objects ≡ false

filter-gone :
    (key : Text) (objects : List Text)
    → is_stored key (filter (λ k. not (text_eq k key)) objects) ≡ false
filter-gone key [] = refl
filter-gone key (k ∷ objects) = ground (arith, filter-gone key objects, text_eq_sym key k)

filter-stored :
    (key other : Text) (objects : List Text)
    → is_stored key objects ≡ false
    → is_stored key (filter (λ k. not (text_eq k other)) objects) ≡ false
filter-stored key other [] h = refl
filter-stored key other (k ∷ objects) h = ground (arith, filter-stored key other objects)

module _ (deletes : Text → Bool) where
  delete_old-IsGone :
      (key : Option Text) (objects : List Text)
      → ((k : Text) → key ≡ some k → deletes k ≡ true)
      → IsGone key (delete_old deletes key objects)
  delete_old-IsGone none objects works = tt
  delete_old-IsGone (some k) objects works = ground (arith, works k refl, filter-gone k objects)

  delete_old-keeps :
      (key other : Option Text) (objects : List Text)
      → IsGone key objects
      → IsGone key (delete_old deletes other objects)
  delete_old-keeps none other objects h = tt
  delete_old-keeps (some k) none objects h = h
  delete_old-keeps (some k) (some l) objects h = ground (arith, filter-stored k l objects)

  -- Both documents, one after the other.
  both-IsGone :
      (first second : Option Text) (objects : List Text)
      → ((k : Text) → first ≡ some k → deletes k ≡ true)
      → ((k : Text) → second ≡ some k → deletes k ≡ true)
      → let after = delete_old deletes second (delete_old deletes first objects) in
        IsGone first after × IsGone second after
  both-IsGone first second objects f g = (
    delete_old-keeps first second (delete_old deletes first objects)
        (delete_old-IsGone first objects f),
    delete_old-IsGone second (delete_old deletes first objects) g,
  )

  review_found-row :
      (now id : ℕ) (status : ReviewStatus) (why : Option Text) (by : Text) (r : AccessRequest)
      (st : Staff)
      → is_decided status ≡ true
      → find_request id st.requests ≡ some r
      → find_request id (review_found deletes now status why by r st).requests
        ≡ some (forgotten (reviewed now status why by r))
  unfolding review_found
  review_found-row now id status why by r st decided found = ground (
    arith,
    find_by_key (λ x. x.id) id st.requests r found,
    find_by-update_by (λ x. x.id) id id (reviewed now status why by) st.requests (λ x. refl),
    find_by-update_by (λ x. x.id) id id forgotten
        (update_by (λ x. x.id) id (reviewed now status why by) st.requests) (λ x. refl),
  )

  review_found-objects :
      (now : ℕ) (status : ReviewStatus) (why : Option Text) (by : Text) (r : AccessRequest)
      (st : Staff)
      → is_decided status ≡ true
      → (review_found deletes now status why by r st).objects
        ≡ delete_old deletes r.id_back_key (delete_old deletes r.id_front_key st.objects)
  unfolding review_found
  review_found-objects now status why by r st decided = ground arith

  review_lem :
      (now id : ℕ) (status : ReviewStatus) (why : Option Text) (by : Text)
      (r answer : AccessRequest) (st st' : Staff)
      → is_decided status ≡ true
      → find_request id st.requests ≡ some r
      → review_access_request deletes now id (some status) why by st ≡ (ok answer, st')
      → review_found deletes now status why by r st ≡ st'
  unfolding review_access_request
  review_lem now id new_request why by r answer st st' decided found h = ground arith
  review_lem now id contacted why by r answer st st' decided found h = ground arith
  review_lem now id approved why by r answer st st' decided found h = ground arith
  review_lem now id declined why by r answer st st' decided found h = ground arith

  -- Once a request is approved or declined, its row names no document, and where the storage could
  -- delete the two that it named, neither is stored any more; the row has the decision and who
  -- made it.
  pub review-destroys :
      (now id : ℕ) (status : ReviewStatus) (why : Option Text) (by : Text)
      (r answer : AccessRequest) (st st' : Staff)
      → is_decided status ≡ true
      → find_request id st.requests ≡ some r
      → ((k : Text) → r.id_front_key ≡ some k → deletes k ≡ true)
      → ((k : Text) → r.id_back_key ≡ some k → deletes k ≡ true)
      → review_access_request deletes now id (some status) why by st ≡ (ok answer, st')
      → (find_request id st'.requests ≡ some (forgotten (reviewed now status why by r)))
        × IsGone r.id_front_key st'.objects
        × IsGone r.id_back_key st'.objects
  review-destroys now id status why by r answer st st' decided found front_works back_works h =
      let same = review_lem now id status why by r answer st st' decided found h in
      let gone = both-IsGone r.id_front_key r.id_back_key st.objects front_works back_works in
      let objects =
        sym (review_found-objects now status why by r st decided) ∙ ap (λ x. x.objects) same in
      (
        ap (λ x. find_request id x.requests) (sym same)
            ∙ review_found-row now id status why by r st decided found,
        subst (IsGone r.id_front_key) objects gone.0,
        subst (IsGone r.id_back_key) objects gone.1,
      )
