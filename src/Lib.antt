-- ===== src/Lib.antt =====
-- ayphen-retail-pos: an offline-first point of sale. The mobile app keeps a local database, queues
-- its writes, and syncs with the backend, which applies each queued mutation in a transaction.
--
-- The parts that are modelled, and how they meet:
--
-- Backend (apps/backend/src). Ledger.antt is ledger/account-posting.service.ts: the money postings
-- as functions on the books, an append-only list of account transactions and one of customer ledger
-- events, with its balances in Ledger/Balance.antt and, in Ledger/Effects.antt, the abstract table
-- of what each posting means. StoreDb.antt holds the tables of db/schema.ts that the handlers use,
-- and `Exec`, what a handler's run ends in: a value, a rejection with its code, or a thrown error.
-- Sale.antt is sync/push/handlers/sale.handler.ts: `apply` checks the payload, resolves products,
-- accounts and the customer, checks the totals, allocates the invoice number, writes the rows and
-- calls the postings of Ledger.antt. Sale/Credit.antt is its credit limit. Refund.antt is
-- sync/push/handlers/refund.handler.ts on the same tables: it reads what earlier refunds gave,
-- computes each line from its cumulative target, splits the amount between the customer's credit
-- and the account, and writes and posts it. CustomerPayment.antt is
-- sync/push/handlers/customer-payment.handler.ts, which settles credit sales by allocations. History.antt
-- puts the three together: a step is a mutation that one of them accepts, and what is shown of them
-- one by one holds of every database that they reach.
--
-- Push.antt is sync/push/delta.service.ts with the idempotency, failure and conflict repositories:
-- Push/Process.antt takes one mutation through the preflight and its transaction, with the handlers
-- and the permission lookup as parameters and `rival` for what other requests commit before the
-- transaction; Push/Cases.antt is the case analysis that the proofs share. Push/Batch.antt is
-- `runMutationWaves`: it rejects the mutations that Push/Cycles.antt (`findParentCycleMutationIds`)
-- finds, sorts the others by Push/Sort.antt (`topoSort`), groups them by Push/Waves.antt
-- (`computeWaves`) and runs the waves, with what commits around each mutation as a parameter.
--
-- MasterData.antt is sync/push/master-data.handler.ts, the handler of products, customers and the
-- other master data, with the tombstones of sync/repositories/tombstone.repository.ts: the row
-- version is its optimistic lock. What an entity configures is a record that it takes. Cursor.antt
-- is sync/cursor/sync-cursor.service.ts, which signs the position of a pull; its codecs and the HMAC
-- are a record, and what is known of them is another.
--
-- Mobile (apps/mobile/src/core/sync). SyncDb.antt is the local database of db/schema.ts, with the
-- local tables as a parameter type that only the appliers (appliers/applier.types.ts) write.
-- MutationQueue.antt is repositories/mutation-queue.repository.ts, an operation a function on the
-- queue's rows. Pull.antt is engine/apply-changes.ts, apply-with-isolation.ts, retry-failed-
-- applies.ts and repositories/failed-applies.repository.ts: a page is applied under the shadow of
-- the queue, a bad row goes to the dead letters. Drain.antt is engine/drain-queue.ts with
-- reconcile-mutation-result.ts and transport/push-error-classifier.ts: it takes rows from the
-- queue, pushes them, reconciles each result with the tables and the queue, and applies the pulled
-- page that comes with the answer. Drain/Capped.antt has the life of a queue as steps.
--
-- SyncEngine.antt is engine/sync-engine.ts with cold-start.ts, delta-pull.ts and permission-
-- rebase.ts: opening a store and a cycle, on top of Drain.antt and Pull.antt. Scheduler.antt is
-- engine/sync-scheduler.ts, which decides when the engine runs, as a step relation.
--
-- Cart.antt is the cart of a sale in progress, apps/mobile/src/features/pos/store/cart-store.ts.
--
-- A larger component has its types or its first stages in a file of its own, whose names it passes
-- on: Sale/Lookups.antt and Sale/Writes.antt, Refund/Prior.antt, MasterData/Rows.antt,
-- Push/State.antt, Drain/Wire.antt and SyncEngine/State.antt. Its theorems stand in the other files
-- of its folder, and the runs at concrete inputs in its Tests.antt.
--
-- How it is modelled. Ids, guuids, texts and entity types are natural numbers, since the code only
-- compares and stores them; the text of a credit limit is a list of code units. Money is in paise;
-- the safe-integer checks of the source are written out with 2 ^ 53 - 1, and an insert throws that
-- does not fit the 32-bit columns (the invoice counter's own bound is left out). A quantity is in
-- thousandths, and in a request for a refund in units of 1e-9, the tolerance of the handler; its column
-- rounds it to thousandths. Finer quantities, and sale lines off thousandths, are left out; `gross`
-- (Math.round(qty * unit_price_paise)) and `prorate` (Math.round((a / b) * t)) on doubles are
-- parameters. A table
-- is a list in insertion order, and the ids that the database generates come from a counter. A
-- transaction whose body throws leaves the database as it was, so a throw carries no database.
-- The guuid is the unique key of a table of
-- master data, and both ways to delete a row are its flag `alive`; its audit columns are part of
-- `columns` or left out, and the trigger `sync_touch_row` (apps/backend/drizzle) is the version
-- that a delete adds. A cursor's text is a list of character codes and its timestamps are
-- microseconds. Times are milliseconds; one reading of the clock stands for the several of a run. JSON text is
-- the value it was written from. A loop over a list is structural recursion, and the drain loop
-- counts down its own cap of 20 batches. The walk of the cycle search and the visits of the sort run
-- on fuel above the size of the batch, which is enough: each step adds a mutation to the path. The cold start and the delta pull wait for the server's
-- last page: they run on fuel and end in `unfinished` without it. Fuel for the pages that the server has
-- left is enough, as the two theorems on opening a store and on a cycle show; the others hold for every
-- fuel. The server, the appliers and the registry are parameters.
--
-- Not modelled: user interface, HTTP and framework glue, logging, authentication and devices, the
-- payment provider, the SQL of the appliers, the server's pull, what each master-data entity
-- configures, and the handlers of cash movements and of suppliers' bills and payments, of which
-- Ledger.antt has the postings.
pub mod Common
pub mod Ledger
pub mod StoreDb
pub mod Sale
pub mod Refund
pub mod SyncDb
pub mod MutationQueue
pub mod Pull
pub mod Drain
pub mod Push
pub mod Cart
pub mod CustomerPayment
pub mod History
pub mod Cursor
pub mod MasterData
pub mod SyncEngine
pub mod Scheduler
