-- ===== src/Lib.antt =====
-- Verification of the Stellar Tipz backend (backend/src): the indexer that projects events of the
-- Stellar chain into the database, payouts and withdrawals, charges of subscriptions, sign-in, webhooks
-- and notifications, the credit score, and the utilities that they rest on.
--
-- The parts and their files
-- - Base: numbers, lists, options, text and integers over the native numbers; the Boolean tests.
-- - Common/Breaker: the circuit breaker of backend/src/common/utils/circuitBreaker.ts. `call` is cut
--   at its `await` into `enter`, `on_success` and `on_failure`, so that calls in flight can interleave.
-- - Common/Retry: `withRetry` of backend/src/common/utils/retry.ts. The function that is called, the
--   random share of a delay and the abort signal are arguments. The fuel of the loop is the number of
--   attempts that the source's own `for` has.
-- - Common/RateLimit: the limiter of backend/src/realtime/rateLimit.ts; its map is a function.
-- - Common/Stroops: `parseStroops` of backend/src/common/validation/stroops.ts.
-- - Common/Pagination: signed cursors and keyset pages of backend/src/common/pagination/cursor.ts, with
--   the listing of backend/src/modules/subscriptions/subscriptions.service.ts. base64url, HMAC and JSON
--   are parameters.
-- - Credit: the formula of backend/src/modules/credit/credit.formula.ts with the defaults of
--   credit.config.ts and the tiers of credit.service.ts.
-- - Indexer: backend/src/indexer. Value holds decoded event values and their readers; State the
--   database and the programs over it; Notify what the projections call of
--   backend/src/modules/notifications; Projections `projectEvent` and its handlers; Replay what a
--   repeated event does.
-- - Indexer/Chain: cursors and checkpoints (cursor.ts, ledger-checkpoint.store.ts); Indexer/Reorg:
--   reorg.ts; Indexer/Poller: poller.ts. The fuel of the page loop is the source's own bound of pages.
--   What the RPC servers answer during a poll is an argument. Indexer/Backfill: backfill.ts, whose loop
--   has no bound of its own; the fuel is any number of pages. Indexer/Atomic: transactions of writes.
-- - Payouts: scheduled payouts (backend/src/modules/withdrawals/payouts.service.ts). What the queries,
--   the network and the updates of one attempt come to is an argument, `Calls`.
-- - Dunning: charges of due subscriptions (backend/src/jobs/subscriptionCharge.worker.ts and
--   subscriptionCharge.failure.ts), on the subscription rows of Indexer/State. The result of a charge
--   on the chain is an argument.
-- - Auth: backend/src/modules/auth/auth.service.ts. Challenges has `createChallenge`, `verifyChallenge`
--   and the clean-up; Tokens refresh, rotation and logout, the rotation cut between its read and its
--   writes; Limits the counters; Requests the requests served one after the other; Invariants what
--   they keep if each write does. SHA-256, the check of a signature and the passphrases of the networks
--   are parameters; a random value is a number never given out before.
-- - Notifications: backend/src/modules/notifications/delivery.ts, deliveries with their receipts and the
--   suppression of channels.
-- - Streaks: the update of a streak in backend/src/modules/streaks/streaks.service.ts and the guarded one
--   in backend/src/common/utils/concurrency.ts. The fuel of its loop is the source's own number of
--   attempts; what other requests do to the row during an attempt is an argument.
-- - Webhooks: deliveries to subscribers. Delay, Excerpt and Attempt follow
--   backend/src/jobs/webhookDelivery.ts, Signing backend/src/modules/webhooks/webhooks.signing.ts; Queue
--   drives the attempts of a job, with the handler of backend/src/jobs/deadLetter.ts. When BullMQ runs a
--   job again, SHA-256, HMAC and UTF-8 are parameters; what the network, the clock and the database do
--   during an attempt is an argument. The fuel is the number of attempts that a job has. Urls is the
--   guard of the targets, backend/src/modules/webhooks/webhooks.url-safety.ts, with a list of the
--   requests that are sent.
-- - Withdrawals: the balance, fee and submission of backend/src/modules/withdrawals/withdrawals.service.ts.
--   A submission is cut at its waits: Balance runs submissions one after the other, Race interleaves them.
-- - Subscriptions: the charge on the chain and its confirmation, in
--   backend/src/modules/subscriptions/subscriptions.service.ts. Every round of the loop takes a
--   millisecond at least, so a fuel above the timeout in milliseconds is enough.
--
-- How the code is modelled
-- In the indexer the database is a record of tables, each the function from a unique key to the row
-- found under it. A program is a function from the world to a result, which is a value or a failure,
-- and the world after it. Every call of Prisma may fail: the world holds a list that says of each coming
-- call whether it does. A transaction takes back its writes when a call inside it or its commit fails.
-- Between two calls no other program runs: two indexers at once are not modelled, but the insertion
-- behind the unique key of the event log is. The other parts hold the rows that they use, as lists or as
-- the one row, and are cut at their waits where requests at the same time matter. Logs
-- and metrics are left out, apart from the count of unknown events. Times are arguments.
--
-- How the parts interact: a poll looks for a reorganization first, then reads pages of events and
-- projects each of them, then moves the cursor and records the hash of the ledger. The projections
-- write the subscription rows that the charges read. An attempt of a webhook delivery signs its request,
-- reads an excerpt of the answer and disables the subscription after the last failure; the guard of its
-- target stands by itself, and what it lets through is an argument of the attempt.
--
-- What is not modelled
-- The HTTP layer, access tokens (JWT), caches, emails and file storage, which call libraries; the
-- frontend; and the contract, which is written in Rust. JavaScript numbers are exact integers here:
-- ledgers, times, counts and scores lie far inside the exact range. The timestamp that a receiver of a
-- webhook reads may be any finite number; it is held by its printed form and its test of the tolerance.
pub mod Auth
pub mod Base
pub mod Common
pub mod Credit
pub mod Dunning
pub mod Indexer
pub mod Notifications
pub mod Payouts
pub mod Streaks
pub mod Subscriptions
pub mod Webhooks
pub mod Withdrawals
