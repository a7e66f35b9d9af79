-- ===== src/Offline/Policy.antt =====
-- What to do with a queued write after an attempt (frontend/shared/syncPolicy.js).
use ghost_merchant.Base.{
  ℕ, zero, suc, ◌*◌, ◌-◌, ◌^◌, min, max, Bool, true, false, ◌&&◌, Option, none, some, [], ◌∷◌, ◌++◌,
  ltb, leb, ◌==◌, if◌then◌else◌,
}
use ghost_merchant.Base.Text.{Text, text, text_eq}
use ghost_merchant.Base.Decimal.{decimal}

-- The actions, with what they carry: a note, the wait and `needsAuth`, the reason.
pub data Verdict : Type 0 where
  done : Option Text → Verdict
  retry : ℕ → Bool → Verdict
  rejected : Text → Verdict

abbrev pub max_attempts : ℕ
max_attempts = 8

unfoldable pub backoff_ms : ℕ → ℕ
backoff_ms attempts = min (1000 * 2 ^ (attempts - 1)) (5 * 60 * 1000)

-- `a && b && a === b` of two strings or null
pub same_target : Option Text → Option Text → Bool
same_target (some (c ∷ s)) (some t) = text_eq (c ∷ s) t
same_target _ _ = false

-- A request that may succeed later: given up on after the last attempt.
unfoldable pub again : ℕ → Text → Verdict
again attempts reason =
    if leb max_attempts attempts then rejected reason else retry (backoff_ms attempts) false

unfoldable pub conflict : Option Text → Option Text → Verdict
conflict target current =
    if same_target target current
    then done (some (text "already applied"))
    else rejected (text "The order moved on before this reached us — the server version wins.")

-- `classify`; status 0 is no answer
unfoldable pub classify : ℕ → ℕ → Option Text → Option Text → Verdict
classify status attempts is_transition_to current_status =
    if status == 0
    then again attempts (text "Could not reach the server after several tries.")
    else if leb 200 status && ltb status 300
    then done none
    else if status == 409
    then conflict is_transition_to current_status
    else if status == 401
    then retry (backoff_ms attempts) true
    else if status == 403
    then retry (backoff_ms attempts) true
    else if status == 429
    then retry (max (backoff_ms attempts) 5000) false
    else if leb 400 status && ltb status 500
    then rejected (text "The server refused this change.")
    else again attempts (text "The server kept failing on this.")

-- `isDue`, of `nextAttemptAt`
abbrev pub is_due : ℕ → ℕ → Bool
is_due zero now = true
is_due (suc next) now = leb (suc next) now

pub data Tone : Type 0 where
  error pending ok : Tone

-- `describe`
pub describe : ℕ → ℕ → Tone × Text
describe pending_count failed =
    if ltb 0 failed
    then (
      error,
      decimal failed
          ++ text " change"
          ++ (if failed == 1 then [] else text "s")
          ++ text " couldn't sync",
    )
    else if ltb 0 pending_count
    then (pending, decimal pending_count ++ text " waiting to send")
    else (ok, text "All changes saved")
