-- ===== src/Base/Loop.antt =====
-- A JavaScript `for ... of` with `break`: each turn gives the state to go on with or to stop at.
use ghost_merchant.Base.{ℕ, ◌≡◌, ◌≢◌, refl, ◌∙◌, List, [], ◌∷◌, ◌++◌, All, subst, sym, ap}

pub data Turn {ℓ} (S : Type ℓ) : Type ℓ where
  go halt : S → Turn S

-- the state after a turn
abbrev pub left {ℓ} : {S : Type ℓ} → Turn S → S
left (go s) = s
left (halt s) = s

unfoldable pub each {ℓ κ} : {R : Type ℓ} {S : Type κ} → (R → S → Turn S) → List R → S → S
each f [] s = s
each f (r ∷ rs) s = elim (f r s) [ go s' ↦ each f rs s' | halt s' ↦ s' ]

-- A loop over rows that have keys, on a state in which a key is looked up, where a turn touches
-- the row of its key only.
module _ {ℓ κ μ} {R : Type ℓ} {S : Type κ} {V : Type μ} (f : R → S → Turn S) (key : R → ℕ)
    (look : ℕ → S → V)
    (local : (k : ℕ) (r : R) (s : S) → k ≢ key r → look k (left (f r s)) ≡ look k s) where
  rest_local :
      (k : ℕ) (rs : List R) (s : S) (t : Turn S)
      → look k (left t) ≡ look k s
      → ((s' : S) → look k (each f rs s') ≡ look k s')
      → look k (elim t [ go s' ↦ each f rs s' | halt s' ↦ s' ]) ≡ look k s
  rest_local k rs s (go s') same ih = ih s' ∙ same
  rest_local k rs s (halt s') same ih = same

  -- The loop leaves alone what is no row's key.
  pub each_local :
      (k : ℕ) (rs : List R) (s : S) → All (λ r. k ≢ key r) rs → look k (each f rs s) ≡ look k s
  unfolding each
  each_local k [] s away = refl
  each_local k (r ∷ rs) s (away, rest) =
      rest_local k rs s (f r s) (local k r s away) (λ s'. each_local k rs s' rest)

  -- Where a turn that goes on leaves its row settled, a row that is not settled at the end has
  -- stopped the loop: no later row was touched.
  module _ {ν} (Held : V → Type ν)
      (settles : (r : R) (s s' : S) → f r s ≡ go s' → Held (look (key r) s') → ⊥) where
    held_stops :
        (k : ℕ) (r : R) (later : List R) (s : S) (t : Turn S)
        → f r s ≡ t
        → k ≢ key r
        → All (λ x. key r ≢ key x) later
        → Held (look (key r) (elim t [ go s' ↦ each f later s' | halt s' ↦ s' ]))
        → look k (elim t [ go s' ↦ each f later s' | halt s' ↦ s' ]) ≡ look k s
    held_stops k r later s (go s') e away distinct held =
        absurd (settles r s s' e (subst Held (each_local (key r) later s' distinct) held))
    held_stops k r later s (halt s') e away distinct held =
        sym (ap (λ t. look k (left t)) e) ∙ local k r s away

    earlier_stops :
        (k : ℕ) (e r : R) (rest : List R) (s : S) (t : Turn S)
        → look k (left t) ≡ look k s
        → ((s' : S) → Held (look (key r) (each f rest s')) → look k (each f rest s') ≡ look k s')
        → Held (look (key r) (elim t [ go s' ↦ each f rest s' | halt s' ↦ s' ]))
        → look k (elim t [ go s' ↦ each f rest s' | halt s' ↦ s' ]) ≡ look k s
    earlier_stops k e r rest s (go s') same ih held = ih s' held ∙ same
    earlier_stops k e r rest s (halt s') same ih held = same

    pub each_in_order :
        (earlier : List R) (r : R) (later : List R) (k : ℕ) (s : S)
        → All (λ x. key r ≢ key x) later
        → k ≢ key r
        → All (λ x. k ≢ key x) earlier
        → Held (look (key r) (each f (earlier ++ r ∷ later) s))
        → look k (each f (earlier ++ r ∷ later) s) ≡ look k s
    unfolding each
    each_in_order [] r later k s distinct away apart held =
        held_stops k r later s (f r s) refl away distinct held
    each_in_order (e ∷ earlier) r later k s distinct away (first, apart) held =
        earlier_stops k e r (earlier ++ r ∷ later) s (f e s) (local k e s first)
          (λ s'. each_in_order earlier r later k s' distinct away apart) held

-- What holds before a loop, and after each turn where it held before, holds after the loop.
module _ {ℓ κ μ ν} {R : Type ℓ} {S : Type κ} (f : R → S → Turn S) (Row : R → Type μ)
    (P : S → Type ν) (step : (r : R) (s : S) → Row r → P s → P (left (f r s))) where
  rest_invariant :
      (rs : List R) (t : Turn S)
      → ((s : S) → P s → P (each f rs s))
      → P (left t)
      → P (elim t [ go s' ↦ each f rs s' | halt s' ↦ s' ])
  rest_invariant rs (go s) ih p = ih s p
  rest_invariant rs (halt s) ih p = p

  pub each_invariant : (rs : List R) (s : S) → All Row rs → P s → P (each f rs s)
  unfolding each
  each_invariant [] s rows p = p
  each_invariant (r ∷ rs) s (row, rows) p =
      rest_invariant rs (f r s) (λ s' q. each_invariant rs s' rows q) (step r s row p)
