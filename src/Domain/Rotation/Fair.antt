-- ===== src/Domain/Rotation/Fair.antt =====
-- The driver that is picked is eligible and comes first in the rotation.
use Prim.Native.Nat.{Ordering}
use mathlib.Core.List.{Memᴰ}
use ghost_merchant.Base.{
  ◌<◌, ◌≤◌, ◌⊎◌, or_else, subst, ℕ, ◌≡◌, ◌≢◌, refl, Bool, true, false, Option, none, some, List, [],
  ◌∷◌, arith, filter, All, if◌then◌else◌,
}
use ghost_merchant.Domain.Rotation.{
  Candidate, is_eligible, compare_drivers, sort_insert, sort_drivers, first, pick_driver,
}

-- `a` comes no later than `b`.
abbrev pub NotAfter : Candidate → Candidate → Type 0
NotAfter a b = compare_drivers a b ≢ Ordering.gt

NotAfter-trans : (a b c : Candidate) → NotAfter a b → NotAfter b c → NotAfter a c
NotAfter-trans a b c h k = ground arith

NotAfter-flip : (a b : Candidate) → compare_drivers a b ≡ Ordering.gt → NotAfter b a
NotAfter-flip a b h = ground arith

NotAfter-refl : (a : Candidate) → NotAfter a a
NotAfter-refl a = ground arith

-- The head of `ys` is one of `xs` and comes no later than any of them.
abbrev Leads : List Candidate → List Candidate → Type 0
Leads [] xs = xs ≡ []
Leads (y ∷ _) xs = Memᴰ y xs × All (NotAfter y) xs

All-before :
    (x y : Candidate) (xs : List Candidate)
    → NotAfter x y
    → All (NotAfter y) xs
    → All (NotAfter x) xs
All-before x y [] h a = tt
All-before x y (z ∷ xs) h a = (NotAfter-trans x y z h a.0, All-before x y xs h a.1)

sort_insert-Leads :
    (x : Candidate) (ys xs : List Candidate) → Leads ys xs → Leads (sort_insert x ys) (x ∷ xs)
unfolding sort_insert
sort_insert-Leads x [] xs h = (Memᴰ.head refl, (NotAfter-refl x, subst_nil xs h))
  where
    subst_nil : (zs : List Candidate) → zs ≡ [] → All (NotAfter x) zs
    subst_nil [] e = tt
    subst_nil (z ∷ zs) e = cc
sort_insert-Leads x (y ∷ ys) xs h = placed (compare_drivers x y) refl
  where
    placed :
        (o : Ordering)
        → compare_drivers x y ≡ o
        → Leads (elim o [ Ordering.gt ↦ y ∷ sort_insert x ys | _ ↦ x ∷ y ∷ ys ]) (x ∷ xs)
    placed Ordering.gt e = (Memᴰ.tail h.0, (NotAfter-flip x y e, h.1))
    placed Ordering.lt e = (Memᴰ.head refl, (NotAfter-refl x, All-before x y xs (λ g. cc) h.1))
    placed Ordering.eq e = (Memᴰ.head refl, (NotAfter-refl x, All-before x y xs (λ g. cc) h.1))

sort_drivers-Leads : (xs : List Candidate) → Leads (sort_drivers xs) xs
unfolding sort_drivers
sort_drivers-Leads [] = refl
sort_drivers-Leads (x ∷ xs) = sort_insert-Leads x (sort_drivers xs) xs (sort_drivers-Leads xs)

module _ (p : Candidate → Bool) where
  Memᴰ_of_filter :
      (d : Candidate) (cs : List Candidate) → Memᴰ d (filter p cs) → Memᴰ d cs × (p d ≡ true)
  Memᴰ_of_filter d [] m = elim m [ ]
  Memᴰ_of_filter d (c ∷ cs) m = split (p c) refl (Memᴰ_of_filter d cs) m
    where
      hit :
          p c ≡ true
          → Memᴰ d (c ∷ filter p cs)
          → (Memᴰ d (filter p cs) → Memᴰ d cs × (p d ≡ true))
          → Memᴰ d (c ∷ cs) × (p d ≡ true)
      hit e (Memᴰ.head h) rest = (Memᴰ.head h, cc)
      hit e (Memᴰ.tail t) rest = (Memᴰ.tail (rest t).0, (rest t).1)

      split :
          (b : Bool)
          → p c ≡ b
          → (Memᴰ d (filter p cs) → Memᴰ d cs × (p d ≡ true))
          → Memᴰ d (if b then c ∷ filter p cs else filter p cs)
          → Memᴰ d (c ∷ cs) × (p d ≡ true)
      split true e rest n = hit e n rest
      split false e rest n = (Memᴰ.tail (rest n).0, (rest n).1)

  All-of_filter :
      (d : Candidate) (cs : List Candidate)
      → All (NotAfter d) (filter p cs)
      → All (λ c. p c ≡ true → NotAfter d c) cs
  All-of_filter d [] a = tt
  All-of_filter d (c ∷ cs) a = split (p c) refl (All-of_filter d cs) a
    where
      split :
          (b : Bool)
          → p c ≡ b
          → (All (NotAfter d) (filter p cs) → All (λ x. p x ≡ true → NotAfter d x) cs)
          → All (NotAfter d) (if b then c ∷ filter p cs else filter p cs)
          → (p c ≡ true → NotAfter d c) × All (λ x. p x ≡ true → NotAfter d x) cs
      split true e rest b = ((λ _. b.0), rest b.1)
      split false e rest b = ((λ h. cc), rest b)

  none_of_filter : (cs : List Candidate) → filter p cs ≡ [] → All (λ c. p c ≡ false) cs
  none_of_filter [] e = tt
  none_of_filter (c ∷ cs) e = ground (arith, none_of_filter cs)

-- A driver who may get an order: switched on, with a PIN, and with fewer than `m` orders.
pub record Qualifies (m : ℕ) (c : Candidate) : Type 0 where
  pub on : c.active ≡ true
  pub has_pin : c.ready ≡ true
  pub room : c.active_orders < m

-- When a driver was last given an order; never is the beginning of time.
abbrev last_turn : Candidate → ℕ
last_turn c = or_else c.last_assigned_at 0

-- `a` is ahead of `b` in the rotation, or level: fewer orders, then the earlier last turn, then the
-- smaller id.
pub Ahead : Candidate → Candidate → Type 0
Ahead a b =
    (a.active_orders < b.active_orders)
    ⊎ ((a.active_orders ≡ b.active_orders)
        × ((last_turn a < last_turn b) ⊎ ((last_turn a ≡ last_turn b) × (a.id ≤ b.id))))

-- What the choice among `cs` has to be: nobody only if nobody qualifies, else a driver of `cs` who
-- does, and who is ahead of all who do.
pub IsFair : ℕ → List Candidate → Option Candidate → Type 0
IsFair m cs none = All (λ c. Qualifies m c → ⊥) cs
IsFair m cs (some d) = Memᴰ d cs × Qualifies m d × All (λ c. Qualifies m c → Ahead d c) cs

is_eligible-Qualifies : (m : ℕ) (c : Candidate) → is_eligible m c ≡ true → Qualifies m c
is_eligible-Qualifies m c h = record {
  on = ground arith;
  has_pin = ground arith;
  room = ground arith;
}

Qualifies-is_eligible : (m : ℕ) (c : Candidate) → Qualifies m c → is_eligible m c ≡ true
Qualifies-is_eligible m c q = ground (arith, q.on, q.has_pin, q.room)

NotAfter-Ahead : (a b : Candidate) → NotAfter a b → Ahead a b
unfolding Ahead
NotAfter-Ahead a b h = ground arith

nobody-Qualifies :
    (m : ℕ) (cs : List Candidate)
    → All (λ c. is_eligible m c ≡ false) cs
    → All (λ c. Qualifies m c → ⊥) cs
nobody-Qualifies m [] h = tt
nobody-Qualifies m (c ∷ cs) (a, h) =
    ((λ q. ground (arith, a, Qualifies-is_eligible m c q)), nobody-Qualifies m cs h)

Ahead-each :
    (m : ℕ) (d : Candidate) (cs : List Candidate)
    → All (λ c. is_eligible m c ≡ true → NotAfter d c) cs
    → All (λ c. Qualifies m c → Ahead d c) cs
Ahead-each m d [] h = tt
Ahead-each m d (c ∷ cs) (a, h) =
    ((λ q. NotAfter-Ahead d c (a (Qualifies-is_eligible m c q))), Ahead-each m d cs h)

first-IsFair :
    (m : ℕ) (cs ys : List Candidate) → Leads ys (filter (is_eligible m) cs) → IsFair m cs (first ys)
unfolding first IsFair
first-IsFair m cs [] h = nobody-Qualifies m cs (none_of_filter (is_eligible m) cs h)
first-IsFair m cs (y ∷ ys) h =
    let (mem, may) = Memᴰ_of_filter (is_eligible m) y cs h.0 in
    (mem, is_eligible-Qualifies m y may, Ahead-each m y cs (All-of_filter (is_eligible m) y cs h.1))

-- The rotation is fair: an order goes to an active driver with a PIN and a free place, and among
-- those to one with the fewest orders, then the longest wait, then the oldest account; it goes to
-- nobody only if no driver qualifies.
pub pick_driver-IsFair : (cs : List Candidate) (m : ℕ) → IsFair m cs (pick_driver cs m)
unfolding pick_driver
pick_driver-IsFair cs m = first-IsFair m cs _ (sort_drivers-Leads (filter (is_eligible m) cs))

-- The driver that is picked is one of the candidates and qualifies.
pub pick_driver-Qualifies :
    (cs : List Candidate) (m : ℕ) (d : Candidate)
    → pick_driver cs m ≡ some d
    → Memᴰ d cs × Qualifies m d
unfolding IsFair
pick_driver-Qualifies cs m d picked =
    let fair = subst (IsFair m cs) picked (pick_driver-IsFair cs m) in (fair.0, fair.1)
