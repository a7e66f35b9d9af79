-- ===== src/Lib.antt =====
-- Gurikaabe (ghost-merchant): a shop that takes orders by phone number, is paid by mobile money and
-- delivers with its own drivers. The backend is Express commands over PostgreSQL; the driver's app
-- keeps a queue of writes for when it has no connection.
--
--   Base         helpers: Boolean tests, lists, tables of rows, JavaScript strings, decimal digits,
--                signed numbers, and the loop with `break`
--   Domain       backend/src/domain: the pure rules. StateMachine is stateMachine.js, Access is
--                access.js, Rotation is dispatch.js, Evidence is proof.js, Webhook is
--                paymentWebhook.js, Redact is redact.js; Ids, Phone, PaymentRef, Email, Wallets
--                and Ussd are the files of those names
--   Db           backend/prisma/schema.prisma as a record of lists of rows; Db/Tx is the
--                transactions of backend/src/db/prisma.js, Db/Rows the row operations with the outbox
--                writer and the audit log
--   Commands     backend/src/commands: Orders and Orders/Create (orders.js), Refunds, Dispatch,
--                Payments, Photos, Proofs and Proofs/Dispute; the child modules hold what is proved.
--                System is all of these commands together: runs of calls over one set of tables
--   Auth         signing in: Otp is backend/src/domain/otp.js, Challenges and Links are
--                backend/src/commands/auth.js; Passwords is backend/src/commands/passwords.js with
--                domain/customerPassword.js
--   Staff        the accounts of operators and drivers: Rules is backend/src/domain/operator.js and
--                staffInvite.js; Operators is backend/src/commands/operators.js, Requests is
--                accessRequests.js, Accounts and Setup are staffAccounts.js
--   Routes       PaymentsWebhook is backend/src/routes/paymentsWebhook.js, the provider's callback
--   Realtime     Sockets is backend/src/realtime/socketServer.js, Sockets/Life the sequence of what
--                happens to the sockets
--   Events       Relay is the publishing half of backend/src/events/outbox.js, Relay/Drain its loop
--   Middleware   RateLimit is backend/src/middleware/rateLimit.js, Session is auth.js and authorize.js
--                beside it
--   Offline      frontend/shared: Policy is syncPolicy.js, Queue is queue.js
--   Front        frontend/shared/phone.js, the phone matcher of the pages
--
-- How the parts meet: a command runs in one transaction, a function of the tables that gives a result
-- with new tables, or an error with none; `with_transaction` and `with_critical_transaction` put the
-- old tables back on an error. `transition_order` is the one way to change a status: it tests the
-- table of transitions, writes the event, the outbox row and the message, and opens a refund. The
-- payment, dispatch and delivery commands call it inside their own transactions. The relay reads the
-- outbox rows that they leave. The row locks of the source make the transactions on an order, its
-- payment and its delivery single steps. The commands on refunds, photos, passwords and staff read
-- without a lock, or run their statements outside a transaction; each of their calls is one step here
-- too, so runs are sequences of calls that do not overlap, and where an overlap matters the result
-- says so. `read_owed` and `update_refund` are the two halves of a closing of a refund.
--
-- Numbers are natural numbers; money is in cents, instants are milliseconds, and a UUID is the number
-- that it spells. The loops are recursions on a list or a text. Two are on fuel: the digits of a number,
-- with one step more than the number, which has no more digits than that, and the drain of the outbox,
-- for which the tries that its rows have left, and one more, are enough.
--
-- Parameters, because they are the platform's, a service's or in floating point: upper and lower
-- case, the reading of a decimal amount, the hash of a code and its check, the digest of an email,
-- the SMS and email senders, the great-circle distance, the clock, the drawn random numbers, the
-- subscribers of an event, the keyed hash and the JSON of a callback, the check of a session token
-- by the sockets, the hash and the text of a session, the objects that the storage stores and
-- deletes, and the network of the offline queue. Where a result needs something of a parameter, it
-- is a hypothesis of the theorem.
--
-- Not modelled: the other HTTP routes, the security headers, the log of requests and the error
-- handler, the queries, object storage, Redis connections, the start-up code, and the pages of the
-- front ends. A drain of the outbox meets the rows that stand there when it starts; rows written
-- meanwhile are left to the next one. The staff commands that the source runs as separate
-- statements, without a transaction, are single steps here, and so is a frame of a socket, with the
-- order that it reads.
pub mod Base
pub mod Domain
pub mod Db
pub mod Commands
pub mod Offline
pub mod Staff
pub mod Front
pub mod Routes
pub mod Realtime
pub mod Events
pub mod Auth
pub mod Middleware
