-- ===== src/Lib.antt =====
-- The partner platform of this repository lets partners rent out phone numbers for one-time passwords
-- and pays them for each password delivered. This library models its policy and money core, which is
-- written in TypeScript under src/, with the properties that make it correct.
--
-- The parts and how they interact. A partner's numbers stand in devices that send heartbeats; an offer
-- on a number is accepted on a dimension of the catalog and priced by it; the inventory picks a number
-- for a buyer; the order and its number then move together through one state machine, and after a
-- success the order keeps listening for a while before the number is given back. An inbound message is
-- matched with the one order that waits on its number; the password in it makes the order succeed and
-- creates an earning, which is released after its hold and locked whole by a payout; every move of an earning's
-- status comes with one double-entry transaction in the ledger, from which balances are computed.
--
-- Which file models what:
-- - Order/Status, Order/Release, Order/Transition: src/domain/order-state-machine.ts
--   (decideOrderNumberTransition, decideNumberRelease); Order/Listening: the hold release of
--   src/domain/order-listening-window.ts. Each decision is one function with the source's branches in
--   the source's order.
-- - Ledger: src/domain/task-5-6/ledger.ts and errors.ts; Earning: src/domain/task-5-6/earning.ts;
--   Payout: src/domain/task-5-6/payout.ts. What the source throws is the error of a Result.
-- - Settlement: the service src/application/ledger/earning-lifecycle-service.ts with the
--   compare-and-set of src/infrastructure/database/earning-projection-repository.ts and the append of
--   src/infrastructure/database/ledger-repository.ts. The state is the partner's earning rows and
--   ledger; a command takes the rows it read earlier apart from the rows its transaction runs on, so
--   that concurrent runs and retries can be stated.
-- - Settlement/Payouts: src/application/payouts/payout-request-service.ts behind its permission and
--   destination checks, on the same store; Settlement/Runs: the runs of all three commands.
-- - Review: src/application/payouts/payout-review-service.ts with the compare-and-set on payout and
--   allocation rows of src/infrastructure/database/payout-review-gateway.ts, and the payout request with
--   the rows that payout-request-gateway.ts beside it inserts. The books are the store of Settlement with
--   the partner's payouts and their allocations; the payment references of other partners' payouts are
--   a parameter.
-- - Sms: decideSmsIngress and matchSmsToActiveOrder of src/domain/sms-matching-otp.ts; Sms/Registry,
--   Sms/Candidates and Sms/Otp: its services and foreign senders, its scan for codes, and
--   parseServiceOtp. Sms/Ingestion and Sms/Delivery: src/application/sms/sms-ingestion-service.ts, before
--   and after the match, on the rows of Sms/Rows with the reads and writes of Sms/Gateway, from
--   src/infrastructure/database/partner-sms-matching-gateway.ts and partner-sms-gateway.ts, where the
--   first success of an order applies the state machine of Order and the earning decision of Earning. A
--   run reads one state of the rows and writes on another, as concurrent transactions do.
-- - Catalog: src/domain/task-5-2-device-inventory-pricing.ts, with one module each for pricing,
--   dimensions and offers, declarations, devices, inventory and phone numbers.
-- - Idempotency: src/domain/task-5-3/idempotency.ts, the request identity of canonical-request-hash.ts
--   beside it, and src/application/internal-api/idempotency-engine.ts (runIdempotent) on the records of
--   src/infrastructure/database/idempotency-record-gateway.ts. A run takes the table in which it looks
--   its record up apart from the database on which it commits; the SHA-256 is a parameter.
-- - Base, Int, Number, Double, Text: lists, tests and results; exact integers; JavaScript numbers and
--   their rounded sums; strings.
-- - Tests: the theorems and definitions at concrete inputs.
--
-- How values are modelled. A JavaScript number is an exact integer, NaN or an infinity; fractions
-- do not occur. The ledger's own sums (the zero-sum test of a transaction, the balance of a bucket,
-- the total of the buckets) are taken in the source with no test of the safe range, and are rounded
-- as doubles, in Double. Elsewhere the amounts pass Number.isSafeInteger before they are used and a
-- product or sum is tested by the source itself, so it is exact here; that includes the sum of a
-- payout's allocations, whose partial sums are exact here: for positive safe amounts, the only ones
-- that the program creates, a sum that has left the safe range stays outside it, rounded or not,
-- and the last test refuses it. A quotient of safe integers under Math.ceil is the exact one: the
-- nearest double of a quotient below 2^53 does not cross an integer. A Date is its time value, NaN
-- if invalid. A string is the list of its Unicode code points, without lone surrogates; lengths
-- count UTF-16 units. Full Unicode tables (toUpperCase, toLocaleLowerCase, NFKC, the classes of
-- letters and digits) are parameters, with a hypothesis where a theorem needs one. The regular
-- expressions of the password parser are recognisers by clauses. Every loop of the source is
-- structural on its list. The one definition on fuel is `spacing` of Double, the distance of
-- neighbouring doubles: 971 doublings reach every double (round_covers).
--
-- Not modelled: the other services, the database queries, cryptography, the web application and the
-- deployment files. The reconciliation issue that a reversal of a paid earning records is outside
-- the store of Settlement, and so are the rows of the transition and audit trails, which the
-- services only write; of the order transitions the store of Sms keeps the unique operation keys.
-- Frozen objects are values, so Object.freeze has no counterpart.
pub mod Base
pub mod Int
pub mod Number
pub mod Text
pub mod Order
pub mod Ledger
pub mod Double
pub mod Earning
pub mod Payout
pub mod Settlement
pub mod Idempotency
pub mod Review
pub mod Tests
pub mod Catalog
pub mod Sms
