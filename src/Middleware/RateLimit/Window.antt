-- ===== src/Middleware/RateLimit/Window.antt =====
-- The two implementations of the limit agree, and neither lets more through than it says.
use ghost_merchant.Base.{
  ℕ, ◌≤◌, ◌<◌, ◌≡◌, refl, subst, sym, false, List, [], ◌∷◌, ◌++◌, All, length, length-append,
  Bool-cases, inl, inr, arith,
}
use ghost_merchant.Base.Text.{Text, text_eq_refl}
use ghost_merchant.Middleware.RateLimit.{
  Buckets, hits, set, delete, keep, is_old, live_hits, prune, admit, consume, drop_old, insert,
  sliding_window,
}

-- Each hit is at or after the one before it.
unfoldable pub Ascending : List ℕ → Type 0
Ascending [] = Unit
Ascending (t ∷ ts) = All (λ u. t ≤ u) ts × Ascending ts

drop_old-All :
    (window_ms now t : ℕ) (ts : List ℕ)
    → is_old window_ms now t ≡ false
    → All (λ u. t ≤ u) ts
    → drop_old window_ms now ts ≡ ts
unfolding drop_old
drop_old-All w now t [] fresh above = refl
drop_old-All w now t (u ∷ us) fresh (first, above) =
    ground (arith, drop_old-All w now t us fresh above)

live_hits_lem :
    (window_ms now : ℕ) (ts : List ℕ)
    → Ascending ts
    → live_hits window_ms now ts ≡ drop_old window_ms now ts
unfolding live_hits drop_old Ascending
live_hits_lem w now [] asc = refl
live_hits_lem w now (t ∷ ts) (above, asc) =
    ground (arith, drop_old-All w now t ts, live_hits_lem w now ts asc)

insert_last : (t : ℕ) (ts : List ℕ) → All (λ u. u ≤ t) ts → insert t ts ≡ ts ++ t ∷ []
unfolding insert
insert_last t [] below = refl
insert_last t (u ∷ us) (first, below) = ground (arith, insert_last t us below)

drop_old-below :
    (window_ms now t : ℕ) (ts : List ℕ)
    → All (λ u. u ≤ t) ts
    → All (λ u. u ≤ t) (drop_old window_ms now ts)
unfolding drop_old
drop_old-below w now t [] below = below
drop_old-below w now t (u ∷ us) (first, below) = elim (Bool-cases (is_old w now u)) [
  | inl old ↦ rw old (drop_old-below w now t us below)
  | inr fresh ↦ rw fresh (first, drop_old-below w now t us below)
]

hits-set : (key : Text) (ts : List ℕ) (bs : Buckets) → hits key (set key ts bs) ≡ ts
unfolding hits set
hits-set key ts [] = ground (arith, text_eq_refl key)
hits-set key ts ((k, us) ∷ bs) = ground (arith, hits-set key ts bs)

hits-delete : (key : Text) (bs : Buckets) → hits key (delete key bs) ≡ []
unfolding hits delete
hits-delete key [] = refl
hits-delete key ((k, us) ∷ bs) = ground (arith, hits-delete key bs)

hits-keep : (key : Text) (ts : List ℕ) (bs : Buckets) → hits key (keep key ts bs) ≡ ts
unfolding keep
hits-keep key [] bs = hits-delete key bs
hits-keep key (t ∷ ts) bs = hits-set key (t ∷ ts) bs

admit-sliding_window :
    (key : Text) (window_ms max_hits now : ℕ) (live scores : List ℕ) (buckets : Buckets)
    → hits key buckets ≡ live
    → insert now live ≡ live ++ now ∷ []
    → live ≡ drop_old window_ms now scores
    → 0 < max_hits
    → (
      (admit key window_ms max_hits now live buckets).0,
      hits key (admit key window_ms max_hits now live buckets).1,
    )
      ≡ sliding_window now window_ms max_hits scores
unfolding admit sliding_window
admit-sliding_window key w m now [] scores buckets same last dropped some_room =
    ground (arith, hits-set key (now ∷ []) buckets)
admit-sliding_window key w m now (t ∷ live) scores buckets same last dropped some_room =
    ground (arith, hits-set key (t ∷ live ++ now ∷ []) buckets, length-append live (now ∷ []))

-- On hits in order, none of them later than now, the in-process limiter and the script in Redis
-- give the same verdict and leave the same hits, for every window and every limit but 0.
pub consume-sliding_window :
    (key : Text) (window_ms max_hits now : ℕ) (buckets : Buckets)
    → Ascending (hits key buckets)
    → All (λ t. t ≤ now) (hits key buckets)
    → 0 < max_hits
    → (
      (consume key window_ms max_hits now buckets).0,
      hits key (consume key window_ms max_hits now buckets).1,
    )
      ≡ sliding_window now window_ms max_hits (hits key buckets)
unfolding consume prune
consume-sliding_window key w m now buckets asc below some_room =
    let live = live_hits w now (hits key buckets) in
    let same = live_hits_lem w now (hits key buckets) asc in
    admit-sliding_window key w m now live (hits key buckets) (keep key live buckets)
      (hits-keep key live buckets)
      (insert_last now live
        (subst (All (λ t. t ≤ now)) (sym same) (drop_old-below w now now (hits key buckets) below)))
      same some_room

admit-length :
    (key : Text) (window_ms max_hits now : ℕ) (live : List ℕ) (buckets : Buckets)
    → hits key buckets ≡ live
    → length live ≤ max_hits
    → length (hits key (admit key window_ms max_hits now live buckets).1) ≤ max_hits
unfolding admit
admit-length key w m now live buckets same room =
    ground (arith, hits-set key (live ++ now ∷ []) buckets, length-append live (now ∷ []))

length-live_hits :
    (window_ms now : ℕ) (ts : List ℕ) → length (live_hits window_ms now ts) ≤ length ts
unfolding live_hits
length-live_hits w now [] = omega arith
length-live_hits w now (t ∷ ts) = ground (arith, length-live_hits w now ts)

-- A bucket that holds no more hits than the limit holds no more after any request.
pub consume_bounded :
    (key : Text) (window_ms max_hits now : ℕ) (buckets : Buckets)
    → length (hits key buckets) ≤ max_hits
    → length (hits key (consume key window_ms max_hits now buckets).1) ≤ max_hits
unfolding consume prune
consume_bounded key w m now buckets room =
    let live = live_hits w now (hits key buckets) in
    admit-length key w m now live (keep key live buckets) (hits-keep key live buckets)
      (omega (arith, length-live_hits w now (hits key buckets)))
