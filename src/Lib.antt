-- ===== src/Lib.antt =====
-- A verification library of the AI client acquisition system: the money path, from the sale of a
-- product to the files it opens and the purchase event that is reported to Meta, and the search for
-- clients, from a search to the messages and proposals that a person approves.
--
-- The program's parts and the files that model them (paths from the repository's root):
--
--   packages/catalog: the three products, their ladder and their files. `Catalog` has the ids, the
--   prices and `resolveProduct`; `Catalog/Ladder` has ladder.ts; `Catalog/Deliverables` has the
--   manifest of deliverables.ts. What the source throws is `none`.
--
--   packages/core-entitlements: who may open what. `Entitlements/Funnel` has funnel.ts;
--   `Entitlements/Repository` the two tables and the statements of pgRepository.ts;
--   `Entitlements/Rights` what grants and a revocation do; `Entitlements/Access` has access.ts,
--   `Entitlements/Grant` downloadGrant.ts, `Entitlements/Delivery` delivery.ts and
--   `Entitlements/Reissue` reissue.ts. Access resolution reads the tables of the repository; delivery
--   calls access resolution, the ladder, the verification of links and the manifest, in that order. What
--   the triggers of migration 0004 read of orders and payments is an argument of `grant`; in the
--   webhook's transaction it is read from the transaction's own tables.
--
--   packages/core-payments: `Payments/Orders` has createOrder.ts and `Payments/Orders/Replay` what a key is answered later; its `World` is what Razorpay
--   answers, which queries fail and what other requests commit before the insert. `Payments/Signature`
--   has webhook.ts and razorpaySignature.ts, over the bytes of a body. `Payments/Store` has the tables
--   and the statements of webhookPgStore.ts as a monad of transactions with the constraints and
--   triggers of packages/db/prisma/migrations that they run into; `Payments/Webhook` has
--   webhookHandler.ts and the transaction runner: a connection has the database that others see and
--   the one that its statements write, which COMMIT publishes and ROLLBACK drops. `Payments/Route` has the route
--   apps/web/app/api/webhooks/razorpay/route.ts, from the headers of a request to the answer, and
--   `Payments/Retention` webhookRetention.ts: the redaction of a payload as JSON and, in
--   `Payments/Retention/Job`, the job that narrows old payloads. The webhook
--   writes the tables that entitlements and the queue of purchase events start from.
--
--   apps/worker/src/metaEvents: the queue of purchase events and its worker. `MetaEvents/Repository`
--   has the table and the statements of pgRepository.ts, `MetaEvents/Backoff` has backoff.ts and
--   `MetaEvents/Worker` worker.ts. A run of the worker is a function of the table and of a `World`:
--   what the injected calls return, the clock, the random draw, and what other workers commit to the
--   table while a call is awaited. `MetaEvents/Repository/History` runs the statements of any number
--   of workers in any order.
--
--   packages/core-search: `Search/Repository` has state.ts, retry.ts and the statements of
--   pgRepository.ts, `Search/Service` service.ts for a caller whose session is resolved; its `World` has
--   the caller's profiles, the clock and what other calls commit between a read and a write.
--
--   apps/worker/src/searchWorker: `SearchWorker` has the claim and the settlement of worker.ts over the
--   statements of `Search/Repository`, `SearchWorker/Pipeline` its pipeline, `SearchWorker/PollLoop`
--   the rounds of pollLoop.ts that have passed. The domain calls (discovery, research, opportunities
--   and what prepares them) are arguments: calls on tables of any type that answer or throw.
--
--   packages/rate-limit: `RateLimit` has policy.ts, the keys and decisions of limiter.ts and the counters
--   of pgLimiter.ts; `RateLimit/Window` counts what a window lets through.
--
--   packages/core-acquisition: `Acquisition/Stages` has stages.ts; `Acquisition/Lifecycle` what the
--   moves of an opportunity come to; `Acquisition/Cadence` has cadence.ts, `Acquisition/FollowUp`
--   followUp.ts and `Acquisition/NextAction` nextAction.ts. The follow-up workflow calls the cadence
--   and the stages; the queue of next actions reads the stages.
--
--   packages/core-qualification: `Qualification` has the rules, the evaluator and the upsert, for a
--   caller whose session is resolved; the lookup of signals is an argument.
--
--   packages/core-outreach: `Outreach` has the stored message and the approval gate of approval.ts;
--   `Outreach/Gate` runs any calls of it on a message.
--
--   packages/core-proposal: `Proposals/Schema` has the schemas of schema.ts, `Proposals/Versions`
--   versions.ts; `Proposals/History` and `Proposals/Gate` run any calls of it on a proposal.
--
--   packages/core-reconciliation: `Reconciliation` has the detection of duplicate keys in a window of
--   time (the statement of detection.ts), `Reconciliation/Recording` the cases of repository.ts and the run
--   of reconcile.ts.
--
--   apps/web/src/checkout: `Checkout` has the reducer of machine.ts; `Checkout/Orders` the order that it
--   shows over any events.
--
--   `Common` has what the parts share: tests and lists over the native numbers, signed integers,
--   texts, tables as lists of rows with the statement that updates the rows of a test, a stable sort,
--   and runs of an operation over a list of calls.
--
-- State: a table is the list of its rows; a statement is one pass over it, since the database runs
-- it atomically, and a statement that waits for a lock runs after the holder. The rows that another
-- statement holds, which SKIP LOCKED passes over, are an argument of `claim` and `redact_batch`. The
-- statement of a redaction leaves its rows in the order of receipt, and its SQL function is taken to
-- be `redactWebhookPayload`, as the migration says. The insert of a rejected webhook succeeds.
--
-- Times are milliseconds, amounts paise, both natural numbers. A random draw is a fraction below one.
-- Configured numbers are integers, as the source's own checks demand. Texts are texts: `trim` removes
-- the white space of ECMAScript, `toLowerCase` is modelled on the ASCII letters. The order of texts
-- (`localeCompare`, the collation of the database) is an argument. Sentences made for an operator
-- are data that hold the values they show. A number in JSON is its text.
--
-- Loops are structural, but for `add_business_days`, whose loop runs until enough business days
-- have passed: it has three rounds a day and one more as fuel, since a weekend has two days.
-- `maxBatches` is the bound of the job's own loop. A call that throws leaves the stored
-- message or proposal as it was.
--
-- Not modelled here: SHA-256, HMAC, base64url and JSON text, which are arguments of the definitions
-- that call them (`hash`, `sign`, `encode`, `decode`, `digest`, `parse`); the schemas of request
-- bodies, whose outcome is an argument; the HTTP transport to Meta, an input of the worker; the pages
-- and the routes but for the webhook's; the sentences of errors, except those of refused downloads;
-- the text of the reconciliation's SQL and its guards; the model calls and prompts of research,
-- outreach and proposals; the other packages (those that the search worker calls but for
-- qualification, the scores and metrics of acquisition, and those around them).
pub mod Common
pub mod MetaEvents
pub mod Catalog
pub mod Entitlements
pub mod Payments
pub mod Acquisition
pub mod Checkout
pub mod Outreach
pub mod Proposals
pub mod Qualification
pub mod RateLimit
pub mod Reconciliation
pub mod Search
pub mod SearchWorker
