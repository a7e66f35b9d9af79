-- ===== src/Domain/Evidence.antt =====
-- The proof-of-delivery standard (backend/src/domain/proof.js). Coordinates are in millionths of
-- a degree and an accuracy in millimetres, both exact; the haversine distance in metres, rounded,
-- is a parameter.
pub mod Codes
use ghost_merchant.Base.{
  ℕ, ◌+◌, ◌*◌, ◌/◌, Bool, true, false, Option, none, some, List, [], ◌∷◌, ◌++◌, ◌&&◌, not, leb, ltb,
  ◌==◌, length, take, all, min, if◌then◌else◌, is_some,
}
use ghost_merchant.Base.Int.{ℤ, pos, negsuc, within}
use ghost_merchant.Base.Text.{Text, text_eq, is_digit, trim}
use ghost_merchant.Base.Decimal.{decimal, pad_start}
use ghost_merchant.Db.{
  Order, Step, pickup, delivery, Method, photo, code, photo_no_code, Flag, no_code, no_gps,
  far_from_pin,
}

-- `HANDOFF_MAX_ATTEMPTS`, `PROOF_RADIUS_M`, `REASON_MAX`, `DISPUTE_WINDOW_HOURS`
abbrev pub handoff_max_attempts : ℕ
handoff_max_attempts = 5

abbrev pub proof_radius_m : ℕ
proof_radius_m = 300

abbrev pub reason_max : ℕ
reason_max = 200

abbrev pub dispute_window_hours : ℕ
dispute_window_hours = 72

-- `newHandoffCode`, of the number that `randomInt(0, 10000)` drew
unfoldable pub new_handoff_code : ℕ → Text
new_handoff_code drawn = pad_start 4 (decimal drawn)

-- `isHandoffCode`, of a string
unfoldable pub is_handoff_code : Text → Bool
is_handoff_code c = length c == 4 && all is_digit c

-- `handoffMatches`
unfoldable pub handoff_matches : Text → Text → Bool
unfolding is_handoff_code
handoff_matches expected given =
    is_handoff_code expected && is_handoff_code given && text_eq expected given

-- A fix as the client sends it, each member read by `Number`: `none` is not finite.
pub record RawFix : Type 0 where
  pub lat : Option ℤ
  pub lng : Option ℤ
  pub accuracy : Option ℤ

pub record Fix : Type 0 where
  pub lat : ℤ
  pub lng : ℤ
  pub accuracy : Option ℕ

-- `Number.isFinite(acc) && acc >= 0 ? Math.min(Math.round(acc), 100000) : null`
clean_accuracy : Option ℤ → Option ℕ
clean_accuracy (some (pos mm)) = some (min ((mm + 500) / 1000) 100000)
clean_accuracy _ = none

fix_of : Option ℤ → Option ℤ → Option ℤ → Option Fix
unfolding clean_accuracy
fix_of (some lat) (some lng) acc =
    if within lat 90000000 && within lng 180000000
    then some (record { lat = lat; lng = lng; accuracy = clean_accuracy acc })
    else none
fix_of _ _ acc = none

-- `parseFix`; a missing or non-object fix is `none`
unfoldable pub parse_fix : Option RawFix → Option Fix
unfolding fix_of
parse_fix none = none
parse_fix (some r) = fix_of r.lat r.lng r.accuracy

-- `cleanReason`; anything but a string is `none`
unfoldable pub clean_reason : Option Text → Option Text
clean_reason none = none
clean_reason (some raw) =
    let s = take reason_max (trim raw) in if leb 3 (length s) then some s else none

-- What `buildProof` returns.
pub record Built : Type 0 where
  pub step : Step
  pub method : Method
  pub note : Option Text
  pub lat : Option ℤ
  pub lng : Option ℤ
  pub accuracy_m : Option ℕ
  pub distance_m : Option ℕ
  pub flags : List Flag

-- Where the customer's pin is.
abbrev pub Pin : Type 0
Pin = ℤ × ℤ

abbrev pin_of : Option ℤ → Option ℤ → Option Pin
pin_of (some lat) (some lng) = some (lat, lng)
pin_of _ _ = none

distance_to : (Fix → Pin → ℕ) → Option Fix → Option Pin → Option ℕ
distance_to distance_meters (some f) (some p) = some (distance_meters f p)
distance_to distance_meters _ _ = none

abbrev is_far : Option ℕ → Bool
is_far none = false
is_far (some d) = ltb proof_radius_m d

abbrev gps_flags : Option Fix → Option ℕ → List Flag
gps_flags none d = no_gps ∷ []
gps_flags (some f) d = if is_far d then far_from_pin ∷ [] else []

abbrev method_flags : Method → List Flag
method_flags photo_no_code = no_code ∷ []
method_flags photo = []
method_flags code = []

abbrev flags_of : Step → Method → Option Fix → Option ℕ → List Flag
flags_of pickup m f d = []
flags_of delivery m f d = method_flags m ++ gps_flags f d

-- `buildProof`
unfoldable pub build_proof :
    (Fix → Pin → ℕ) → Step → Method → Option Fix → Order → Option Text → Built
unfolding distance_to
build_proof distance_meters step method fix order note =
    let distance = distance_to distance_meters fix (pin_of order.lat order.lng) in
    record {
      step = step;
      method = method;
      note = note;
      lat = elim fix [ none ↦ none | some f ↦ some f.lat ];
      lng = elim fix [ none ↦ none | some f ↦ some f.lng ];
      accuracy_m = elim fix [ none ↦ none | some f ↦ f.accuracy ];
      distance_m = distance;
      flags = flags_of step method fix distance;
    }
