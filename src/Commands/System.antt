-- ===== src/Commands/System.antt =====
-- The commands of backend/src/commands on orders, photos, money and evidence as one system: any
-- calls, one after the other. The row locks and the advisory lock make that of most; the commands
-- on refunds read without a lock, and here they do not overlap.
pub mod Steps
pub mod Calls
pub mod Evidence
pub mod Talk
pub mod Trace
pub mod Money
pub mod Refunds
pub mod Sound
pub mod Refine
use ghost_merchant.Base.{ℕ, Bool, Option, none, List, [], ◌∷◌}
use ghost_merchant.Base.Text.{Text}
use ghost_merchant.Domain.StateMachine.{failed_refund}
use ghost_merchant.Domain.Wallets.{Wallet}
use ghost_merchant.Domain.Evidence.{RawFix}
use ghost_merchant.Db.{Db, Driver, Step}
use ghost_merchant.Db.Tx.{Error}
use ghost_merchant.Commands.Orders.{post_message, transition_order_alone}
use ghost_merchant.Commands.Orders.Create.{NewOrder, create_order}
use ghost_merchant.Commands.Payments.{claim_payment, confirm_payment}
use ghost_merchant.Commands.Dispatch.{dispatch_waiting}
use ghost_merchant.Commands.Refunds.{settle_refund, waive_refund}
use ghost_merchant.Commands.Photos.{Upload, save_photo}
use ghost_merchant.Commands.Proofs.{Distance, confirm_pickup, confirm_delivery}
use ghost_merchant.Commands.Proofs.Dispute.{mark_proof_reviewed, dispute_delivery}

-- What the commands take from the runtime and the configuration.
pub record Runtime : Type 0 where
  -- the cast to `uuid`, `toUpperCase`, `Math.round(Number(v) * 100)` and the distance
  pub uuid : Text → ℕ
  -- how a UUID is spelled in the key of an object
  pub spell : ℕ → Text
  pub to_upper : Text → Text
  pub to_cents : Text → Option ℕ
  pub distance_meters : Distance
  pub wallets : List Wallet

-- A call of a command, by a route or by the dispatcher's timer. The only status that a caller
-- outside the commands asks for is FAILED_REFUND.
pub data Call : Type 0 where
  -- with the id minted and the number drawn for the order
  create : ℕ → ℕ → NewOrder → Call
  post : ℕ → Text → Text → Option Text → Call
  -- with what the storage throws, and the deletions that it goes through with
  photograph : Option Error → (Text → Bool) → Upload → Call
  claim : ℕ → Option Text → Option Text → Call
  confirm : ℕ → Option Text → Option Text → Text → Call
  dispatch : Call
  fail : ℕ → Text → Option Text → Call
  pick_up : ℕ → Text → Option RawFix → Call
  deliver : ℕ → Text → Option Text → Option Text → Option RawFix → Call
  review : ℕ → Step → Text → Call
  dispute : ℕ → Option Text → Call
  settle : ℕ → Option Text → Option Text → Text → Call
  waive : ℕ → Option Text → Text → Call

-- The tables that a call leaves, whether it went through or was refused.
unfoldable pub perform : Runtime → ℕ → Call → Db → Db
perform w now (create fresh drawn r) db = (create_order w.uuid now fresh drawn r db).1
perform w now (post id sender body client) db = (post_message w.uuid now id sender body client db).1
perform w now (photograph put deletes u) db = (save_photo w.uuid w.spell deletes now put u db).1
perform w now (claim id reference wallet) db =
    (claim_payment w.to_upper now id reference wallet w.wallets db).1
perform w now (confirm id reference amount actor) db =
    (confirm_payment w.to_upper w.to_cents now id reference amount actor db).1
perform w now dispatch db = (dispatch_waiting now db).1
perform w now (fail id actor note) db =
    (transition_order_alone now id failed_refund actor note db).1
perform w now (pick_up id actor fix) db = (confirm_pickup w.distance_meters now id actor fix db).1
perform w now (deliver id actor given reason fix) db =
    (confirm_delivery w.distance_meters now id actor given reason fix db).1
perform w now (review id step actor) db = (mark_proof_reviewed now id step actor db).1
perform w now (dispute id said) db = (dispute_delivery now id said db).1
perform w now (settle id reference note actor) db = (settle_refund now id reference note actor db).1
perform w now (waive id note actor) db = (waive_refund now id note actor db).1

-- The calls in their order, each with the time that it reads.
unfoldable pub run : Runtime → List (ℕ × Call) → Db → Db
run w [] db = db
run w ((now, c) ∷ calls) db = run w calls (perform w now c db)

-- A new database: no orders, whatever drivers there are.
unfoldable pub new_db : List Driver → Db
new_db drivers = record {
  orders = [];
  order_events = [];
  handoffs = [];
  messages = [];
  payments = [];
  refunds = [];
  photos = [];
  proofs = [];
  drivers = drivers;
  audit_log = [];
  outbox = [];
  next_id = 1;
}
