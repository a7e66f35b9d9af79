-- ===== src/Middleware/RateLimit.antt =====
-- The sliding window of hits behind each rate limit (backend/src/middleware/rateLimit.js). The
-- buckets are a list of pairs of a key and its hits, the oldest first.
pub mod Window
use ghost_merchant.Base.{
  ℕ, suc, ◌+◌, ◌-◌, Bool, true, false, Option, none, some, List, [], ◌∷◌, ◌++◌, length, filter, not,
  ltb, leb, if◌then◌else◌,
}
use ghost_merchant.Base.Text.{Text, text, text_eq}

abbrev pub Buckets : Type 0
Buckets = List (Text × List ℕ)

-- `buckets.get(key)`, and no hits for a key that has no bucket
unfoldable pub hits : Text → Buckets → List ℕ
hits key [] = []
hits key ((k, ts) ∷ bs) = if text_eq key k then ts else hits key bs

pub set : Text → List ℕ → Buckets → Buckets
set key ts [] = (key, ts) ∷ []
set key ts ((k, us) ∷ bs) = if text_eq key k then (k, ts) ∷ bs else (k, us) ∷ set key ts bs

pub delete : Text → Buckets → Buckets
delete key [] = []
delete key ((k, ts) ∷ bs) =
    let rest = delete key bs in if text_eq key k then rest else (k, ts) ∷ rest

-- `hits[i] <= now - windowMs`, where the difference may be negative
abbrev pub is_old : ℕ → ℕ → ℕ → Bool
is_old window_ms now t = leb (t + window_ms) now

-- The loop of `prune`: the leading hits that are out of the window go.
unfoldable pub live_hits : ℕ → ℕ → List ℕ → List ℕ
live_hits window_ms now [] = []
live_hits window_ms now (t ∷ ts) =
    let rest = live_hits window_ms now ts in if is_old window_ms now t then rest else t ∷ ts

pub keep : Text → List ℕ → Buckets → Buckets
keep key [] buckets = delete key buckets
keep key (t ∷ ts) buckets = set key (t ∷ ts) buckets

-- `prune`
unfoldable pub prune : Text → ℕ → ℕ → Buckets → List ℕ × Buckets
prune key window_ms now buckets =
    let live = live_hits window_ms now (hits key buckets) in (live, keep key live buckets)

-- A `retryAfterMs` that is NaN is `none`.
pub record Verdict : Type 0 where
  pub allowed : Bool
  pub remaining : ℕ
  pub retry_after_ms : Option ℕ

-- `Math.max(0, live[0] + windowMs - now)`; with a limit of 0 there may be no first hit
abbrev retry_after : ℕ → ℕ → List ℕ → Option ℕ
retry_after window_ms now [] = none
retry_after window_ms now (t ∷ ts) = some (t + window_ms - now)

unfoldable pub admit : Text → ℕ → ℕ → ℕ → List ℕ → Buckets → Verdict × Buckets
admit key window_ms max_hits now live buckets =
    if leb max_hits (length live)
    then (
      record { allowed = false; remaining = 0; retry_after_ms = retry_after window_ms now live },
      buckets,
    )
    else (
      record {
        allowed = true;
        remaining = max_hits - length (live ++ now ∷ []);
        retry_after_ms = some 0;
      },
      set key (live ++ now ∷ []) buckets,
    )

-- `consume`
unfoldable pub consume : Text → ℕ → ℕ → ℕ → Buckets → Verdict × Buckets
consume key window_ms max_hits now buckets =
    let (live, pruned) = prune key window_ms now buckets in
    admit key window_ms max_hits now live pruned

-- `ZREMRANGEBYSCORE key -inf (now - windowMs)`
unfoldable pub drop_old : ℕ → ℕ → List ℕ → List ℕ
drop_old window_ms now = filter λ t. not (is_old window_ms now t)

-- `ZADD`: each hit has a member of its own, and the set is read in the order of the scores
unfoldable pub insert : ℕ → List ℕ → List ℕ
insert t [] = t ∷ []
insert t (u ∷ us) = if ltb t u then t ∷ u ∷ us else u ∷ insert t us

-- `retry` of the script: 0 where the set is empty
abbrev retry : ℕ → ℕ → List ℕ → ℕ
retry window_ms now [] = 0
retry window_ms now (t ∷ ts) = t + window_ms - now

-- The Lua script over a sorted set: every member that is out of the window goes, wherever it
-- stands; a bucket's members are its hits in the order of their scores.
unfoldable pub sliding_window : ℕ → ℕ → ℕ → List ℕ → Verdict × List ℕ
sliding_window now window_ms max_hits scores =
    let live = drop_old window_ms now scores in
    if leb max_hits (length live)
    then (
      record { allowed = false; remaining = 0; retry_after_ms = some (retry window_ms now live) },
      live,
    )
    else (
      record { allowed = true; remaining = max_hits - length live - 1; retry_after_ms = some 0 },
      insert now live,
    )

-- The buckets of this process and those that every instance shares.
pub record Limits : Type 0 where
  pub own : Buckets
  pub shared : Buckets

unfoldable pub consume_own : Text → ℕ → ℕ → ℕ → Limits → Verdict × Limits
consume_own key window_ms max_hits now limits =
    let (verdict, own) = consume key window_ms max_hits now limits.own in
    (verdict, record limits { own = own })

unfoldable pub consume_shared : Text → ℕ → ℕ → ℕ → Limits → Verdict × Limits
consume_shared key window_ms max_hits now limits =
    let name = text "rl:" ++ key in
    let (verdict, scores) = sliding_window now window_ms max_hits (hits name limits.shared) in
    (verdict, record limits { shared = set name scores limits.shared })

-- `consumeAsync`: whether Redis is set up, and whether it answers
unfoldable pub consume_async : Bool → Bool → Text → ℕ → ℕ → ℕ → Limits → Verdict × Limits
consume_async true true = consume_shared
consume_async _ _ = consume_own

-- `resetRateLimits`
abbrev pub reset_rate_limits : Limits → Limits
reset_rate_limits limits = record limits { own = [] }
