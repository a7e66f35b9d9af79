-- ===== src/Offline/Queue.antt =====
-- The queue of writes that wait for a connection (frontend/shared/queue.js). The object store is
-- the list of its rows in the order of their keys; the network and the clock are parameters.
pub mod Order
use ghost_merchant.Base.{
  ℕ, zero, suc, ◌+◌, Bool, true, false, not, Option, none, some, List, [], ◌∷◌, ◌++◌, length,
  filter, ltb, ◌==◌, if◌then◌else◌, or_else,
}
use ghost_merchant.Base.Text.{Text, text}
use ghost_merchant.Base.Loop.{Turn, go, halt, each}
use ghost_merchant.Offline.Policy.{Verdict, done, retry, rejected, classify, is_due}

pub data ItemState : Type 0 where
  pending failed : ItemState

pub record Item : Type 0 where
  pub seq : ℕ
  pub method : Text
  pub path : Text
  pub body : Option Text
  pub content_type : Text
  pub label : Text
  pub order_id : Option Text
  pub transition_to : Option Text
  pub state : ItemState
  pub attempts : ℕ
  pub next_attempt_at : ℕ
  pub queued_at : ℕ
  pub error : Option Text

-- The object store: its rows and the key that `autoIncrement` gives next.
pub record Store : Type 0 where
  pub items : List Item
  pub next_seq : ℕ

-- `s || d`
abbrev pub non_empty : Option Text → Text → Text
non_empty (some (c ∷ s)) d = c ∷ s
non_empty _ d = d

-- `s || null`
abbrev pub truthy : Option Text → Option Text
truthy (some (c ∷ s)) = some (c ∷ s)
truthy _ = none

-- The argument of `enqueue`.
pub record Write : Type 0 where
  pub method : Option Text
  pub path : Text
  pub body : Option Text
  pub content_type : Option Text
  pub label : Option Text
  pub order_id : Option Text
  pub transition_to : Option Text

abbrev pub item_of : Write → ℕ → ℕ → Item
item_of write seq now = record {
  seq = seq;
  method = non_empty write.method (text "POST");
  path = write.path;
  body = write.body;
  content_type = non_empty write.content_type (text "application/json");
  label = non_empty write.label (text "Change");
  order_id = truthy write.order_id;
  transition_to = truthy write.transition_to;
  state = pending;
  attempts = 0;
  next_attempt_at = 0;
  queued_at = now;
  error = none;
}

unfoldable pub enqueue : Write → ℕ → Store → Item × Store
enqueue write now store =
    let item = item_of write store.next_seq now in
    (item, record { items = store.items ++ item ∷ []; next_seq = suc store.next_seq })

-- `store.put`: the row of the key is replaced; without one, it comes in at its place
abbrev pub put : Item → List Item → List Item
put i [] = i ∷ []
put i (x ∷ xs) =
    if x.seq == i.seq then i ∷ xs else if ltb i.seq x.seq then i ∷ x ∷ xs else x ∷ put i xs

-- `store.delete`
abbrev pub remove : ℕ → List Item → List Item
remove k = filter λ x. not (x.seq == k)

abbrev pub is_pending : Item → Bool
is_pending i = elim i.state [ pending ↦ true | failed ↦ false ]

abbrev pub is_failed : Item → Bool
is_failed i = elim i.state [ pending ↦ false | failed ↦ true ]

-- `stats`: how many are pending and how many have failed
abbrev pub stats : Store → ℕ × ℕ
stats store = (length (filter is_pending store.items), length (filter is_failed store.items))

-- `discard`
abbrev pub discard : ℕ → Store → Store
discard seq store = record store { items = remove seq store.items }

-- `clear`: the sequence behind the keys goes on
abbrev pub clear : Store → Store
clear store = record store { items = [] }

-- An answer of the server, with the order's status where it came with one.
pub record Answer : Type 0 where
  pub status : ℕ
  pub current_status : Option Text

-- The clock when an item is reached and when its answer is in, and what `send` does with it:
-- none where it throws.
pub record World : Type 0 where
  pub reached : Item → ℕ
  pub answered : Item → ℕ
  pub send : Item → Option Answer

-- The rows, with the numbers sent and kept.
pub record Flush : Type 0 where
  pub items : List Item
  pub sent : ℕ
  pub kept : ℕ

abbrev pub no_answer : Answer
no_answer = record { status = 0; current_status = none }

unfoldable pub verdict : World → Item → Verdict
verdict w item =
    let outcome = or_else (w.send item) no_answer in
    classify outcome.status (item.attempts + 1) item.transition_to outcome.current_status

-- `verdict.retryInMs || 1000`
abbrev pub wait_ms : ℕ → ℕ
wait_ms zero = 1000
wait_ms (suc n) = suc n

abbrev pub retried : World → Item → ℕ → Item
retried w item ms = record item {
  attempts = item.attempts + 1;
  next_attempt_at = w.answered item + wait_ms ms;
  error = none;
}

abbrev pub refused : Item → Text → Item
refused item reason = record item { state = failed; error = some reason }

unfoldable pub settle : World → Item → Verdict → Flush → Turn Flush
settle w item (done _) f = go (record f { items = remove item.seq f.items; sent = f.sent + 1 })
settle w item (retry ms _) f =
    halt (record f { items = put (retried w item ms) f.items; kept = f.kept + 1 })
settle w item (rejected reason) f = go (record f { items = put (refused item reason) f.items })

unfoldable pub turn : World → Item → Flush → Turn Flush
turn w item f =
    if is_due item.next_attempt_at (w.reached item)
    then settle w item (verdict w item) f
    else halt (record f { kept = f.kept + 1 })

-- `flush`, by one caller at a time: where another flush is on its way, nothing is sent
unfoldable pub flush : Bool → World → List Item → Flush
flush true w items = record { items = items; sent = 0; kept = 0 }
flush false w items =
    each (turn w) (filter is_pending items) (record { items = items; sent = 0; kept = 0 })
