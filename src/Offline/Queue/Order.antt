-- ===== src/Offline/Queue/Order.antt =====
-- The queue keeps the order of the writes, and drops none that the server has not taken.
use ghost_merchant.Base.{
  ℕ, ◌+◌, ◌≤◌, ◌<◌, ◌≡◌, ◌≢◌, refl, sym, ap, ◌∙◌, subst, Option, none, some, List, [], ◌∷◌, ◌++◌,
  All, filter, Bool, true, false, ◌==◌, ltb, leb, ◌&&◌, if◌then◌else◌, Bool-cases, inl, inr, ◌⊎◌,
  arith, or_else,
}
use Prim.{tt}
use ghost_merchant.Base.Text.{Text, text}
use ghost_merchant.Base.Table.{find_by}
use ghost_merchant.Base.Loop.{go, left, each, each_in_order, each_invariant}
use ghost_merchant.Offline.Policy.{
  Verdict, done, retry, rejected, classify, same_target, is_due, again, conflict,
}
use ghost_merchant.Offline.Queue.{
  Item, Flush, World, Answer, no_answer, put, remove, is_pending, retried, refused, verdict, settle,
  turn, flush,
}

abbrev pub item_of_seq : ℕ → List Item → Option Item
item_of_seq = find_by λ x. x.seq

abbrev item_in : ℕ → Flush → Option Item
item_in k f = item_of_seq k f.items

item_of_seq-put :
    (k : ℕ) (i : Item) (xs : List Item)
    → item_of_seq k (put i xs) ≡ (if i.seq == k then some i else item_of_seq k xs)
item_of_seq-put k i [] = ground arith
item_of_seq-put k i (x ∷ xs) = ground (arith, item_of_seq-put k i xs)

item_of_seq-remove :
    (k j : ℕ) (xs : List Item)
    → item_of_seq k (remove j xs) ≡ (if j == k then none else item_of_seq k xs)
item_of_seq-remove k j [] = ground arith
item_of_seq-remove k j (x ∷ xs) = ground (arith, item_of_seq-remove k j xs)

settle_local :
    (w : World) (k : ℕ) (item : Item) (v : Verdict) (f : Flush)
    → k ≢ item.seq
    → item_in k (left (settle w item v f)) ≡ item_in k f
unfolding settle
settle_local w k item (done n) f away = ground (arith, item_of_seq-remove k item.seq f.items)
settle_local w k item (retry ms b) f away =
    ground (arith, item_of_seq-put k (retried w item ms) f.items)
settle_local w k item (rejected r) f away =
    ground (arith, item_of_seq-put k (refused item r) f.items)

turn_local :
    (w : World) (k : ℕ) (item : Item) (f : Flush)
    → k ≢ item.seq
    → item_in k (left (turn w item f)) ≡ item_in k f
unfolding turn
turn_local w k item f away = ground (arith, settle_local w k item (verdict w item) f away)

-- There is such an item, and it is still to be sent.
abbrev pub Pends : Option Item → Type 0
Pends item = (x : Item) × (item ≡ some x) × (is_pending x ≡ true)

settle_settles :
    (w : World) (item : Item) (v : Verdict) (f f' : Flush)
    → settle w item v f ≡ go f'
    → Pends (item_in item.seq f')
    → ⊥
unfolding settle
settle_settles w item (done n) f f' e (x, at, p) =
    ground (arith, item_of_seq-remove item.seq item.seq f.items)
settle_settles w item (retry ms b) f f' e (x, at, p) = ground arith
settle_settles w item (rejected r) f f' e (x, at, p) =
    ground (arith, item_of_seq-put item.seq (refused item r) f.items)

turn_settles :
    (w : World) (item : Item) (f f' : Flush)
    → turn w item f ≡ go f'
    → Pends (item_in item.seq f')
    → ⊥
unfolding turn
turn_settles w item f f' e p = ground (arith, settle_settles w item (verdict w item) f f')

-- A write that is still to be sent after a flush has stopped it: every item that is not before it
-- in the queue, a later one above all, stands as it did. Later items have other numbers than it.
pub flush_in_order :
    (w : World) (items earlier : List Item) (item : Item) (later : List Item) (k : ℕ)
    → filter is_pending items ≡ earlier ++ item ∷ later
    → All (λ x. item.seq ≢ x.seq) later
    → k ≢ item.seq
    → All (λ x. k ≢ x.seq) earlier
    → Pends (item_of_seq item.seq (flush false w items).items)
    → item_of_seq k (flush false w items).items ≡ item_of_seq k items
unfolding flush
flush_in_order w items earlier item later k is_queue distinct away apart pends =
    let start : Flush = record { items = items; sent = 0; kept = 0 } in
    let same = ap (λ rows. each (turn w) rows start) is_queue in
    ap (item_in k) same
    ∙ each_in_order (turn w) (λ x. x.seq) item_in (λ j i f apart. turn_local w j i f apart) Pends
        (λ i f f' e held. turn_settles w i f f' e held) earlier item later k start distinct away
        apart (subst (λ f. Pends (item_in item.seq f)) same pends)

-- What the server says when it has a write: success, or a conflict on an order that already is
-- where the write takes it.
pub data Taken (target : Option Text) (a : Answer) : Type 0 where
  applied : 200 ≤ a.status → a.status < 300 → Taken target a
  already : a.status ≡ 409 → same_target target a.current_status ≡ true → Taken target a

again-done : (attempts : ℕ) (reason : Text) (n : Option Text) → again attempts reason ≡ done n → ⊥
unfolding again
again-done attempts reason n e = ground arith

conflict-done :
    (target current : Option Text) (n : Option Text)
    → conflict target current ≡ done n
    → same_target target current ≡ true
unfolding conflict
conflict-done target current n e = ground arith

classify-done :
    (status attempts : ℕ) (target current : Option Text) (n : Option Text)
    → classify status attempts target current ≡ done n
    → (leb 200 status && ltb status 300) ≡ false
    → (status ≡ 409) × (conflict target current ≡ done n)
unfolding classify
classify-done status attempts target current n e fails = ground (
  arith,
  again-done attempts (text "Could not reach the server after several tries.") n,
  again-done attempts (text "The server kept failing on this.") n,
)

classify-Taken :
    (attempts : ℕ) (target : Option Text) (a : Answer) (n : Option Text)
    → classify a.status attempts target a.current_status ≡ done n
    → Taken target a
classify-Taken attempts target a n e = elim (Bool-cases (leb 200 a.status && ltb a.status 300)) [
  | inl fine ↦ applied (ground arith) (ground arith)
  | inr fails ↦
      let (is_409, conflicts) = classify-done a.status attempts target a.current_status n e fails in
      already is_409 (conflict-done target a.current_status n conflicts)
]

-- A pending item of a key, whose write the server has answered that it has.
pub record Landed (w : World) (k : ℕ) : Type 0 where
  item : Item
  of_key : item.seq ≡ k
  was_pending : is_pending item ≡ true
  answer : Answer
  answered : w.send item ≡ some answer
  taken : Taken item.transition_to answer

-- The item is there, or the server has it.
abbrev pub There : World → ℕ → Option Item → Type 0
There w k item = ((x : Item) × (item ≡ some x)) ⊎ Landed w k

silent : (target : Option Text) → Taken target no_answer → ⊥
silent target (applied low high) = omega arith
silent target (already is_409 same) = omega arith

verdict-Landed :
    (w : World) (item : Item) (n : Option Text) (o : Option Answer)
    → w.send item ≡ o
    → is_pending item ≡ true
    → classify
        (or_else o no_answer).status
        (item.attempts + 1)
        item.transition_to
        (or_else o no_answer).current_status
      ≡ done n
    → Landed w item.seq
verdict-Landed w item n none e p d = absurd (
    silent item.transition_to (classify-Taken (item.attempts + 1) item.transition_to no_answer n d))
verdict-Landed w item n (some a) e p d = record {
  item = item;
  of_key = refl;
  was_pending = p;
  answer = a;
  answered = e;
  taken = classify-Taken (item.attempts + 1) item.transition_to a n d;
}

All-filter : (p : Item → Bool) (xs : List Item) → All (λ x. p x ≡ true) (filter p xs)
All-filter p [] = tt
All-filter p (x ∷ xs) = elim (Bool-cases (p x)) [
  | inl fits ↦ rw fits (fits, All-filter p xs)
  | inr fails ↦ rw fails (All-filter p xs)
]

put-There :
    (w : World) (k : ℕ) (i : Item) (xs : List Item)
    → There w k (item_of_seq k xs)
    → There w k (item_of_seq k (put i xs))
put-There w k i xs t = elim (Bool-cases (i.seq == k)) [
  | inl same ↦ inl (i, ground (arith, item_of_seq-put k i xs))
  | inr other ↦
      subst (There w k)
        (sym (item_of_seq-put k i xs ∙ ap (λ b. if b then some i else item_of_seq k xs) other)) t
]

remove-There :
    (w : World) (k j : ℕ) (xs : List Item)
    → (j ≡ k → Landed w k)
    → There w k (item_of_seq k xs)
    → There w k (item_of_seq k (remove j xs))
remove-There w k j xs l t = elim (Bool-cases (j == k)) [
  | inl same ↦ inr (l (ground arith))
  | inr other ↦
      subst (There w k)
        (sym (item_of_seq-remove k j xs ∙ ap (λ b. if b then none else item_of_seq k xs) other)) t
]

settle-There :
    (w : World) (k : ℕ) (item : Item) (v : Verdict) (f : Flush)
    → (item.seq ≡ k → (n : Option Text) → v ≡ done n → Landed w k)
    → There w k (item_in k f)
    → There w k (item_in k (left (settle w item v f)))
unfolding settle
settle-There w k item (done n) f l t = remove-There w k item.seq f.items (λ e. l e n refl) t
settle-There w k item (retry ms b) f l t = put-There w k (retried w item ms) f.items t
settle-There w k item (rejected r) f l t = put-There w k (refused item r) f.items t

turn-There :
    (w : World) (k : ℕ) (item : Item) (f : Flush)
    → is_pending item ≡ true
    → There w k (item_in k f)
    → There w k (item_in k (left (turn w item f)))
unfolding turn verdict
turn-There w k item f p t = elim (Bool-cases (is_due item.next_attempt_at (w.reached item))) [
  | inl due ↦ rw due (
      settle-There w k item (verdict w item) f
        (λ e n d. subst (Landed w) e (verdict-Landed w item n (w.send item) refl p d)) t)
  | inr early ↦ rw early t
]

-- A flush drops no write in silence: an item that was in the queue is there after it, waiting or
-- marked as failed, or a pending item of its key was sent and the server answered that it has the
-- write, by success or by a conflict on an order that already is where the write takes it.
pub flush_keeps :
    (busy : Bool) (w : World) (items : List Item) (k : ℕ) (item : Item)
    → item_of_seq k items ≡ some item
    → There w k (item_of_seq k (flush busy w items).items)
unfolding flush
flush_keeps true w items k item there = inl (item, there)
flush_keeps false w items k item there =
    each_invariant (turn w) (λ i. is_pending i ≡ true) (λ f. There w k (item_in k f))
      (λ i f p t. turn-There w k i f p t) (filter is_pending items)
      (record { items = items; sent = 0; kept = 0 }) (All-filter is_pending items)
      (inl (item, there))
