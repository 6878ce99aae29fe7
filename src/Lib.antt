-- ===== src/Lib.antt =====
-- Verification library of Revenant Cloud: the service that restores backups on schedule, checks what was
-- restored, and tells how ready a workflow is for recovery.
--
-- The parts and how they interact. A user or the schedule poll creates a job through the jobs service,
-- which asks the plan guards whether the organization may run one more drill. A runner claims the
-- oldest job, reports progress, and completes it with the results of its checks. From the last job,
-- its checks and the recovery contract the readiness service makes dimensions, from these a score, a
-- status, risks and regressions, and the deployment gate answers from those. Redis instances are read
-- through a small RESP client, and their snapshots are kept as long as the plan grants.
--
-- Base: the names that all files share, Boolean tests, lists, texts as lists of code units, the
-- rounding of a quotient, and integers.
-- Duration: `parseDurationToSeconds` (packages/shared/src/recovery-contract.ts), and
-- `parseGoDurationToken` and `extractRpoObservedSeconds` (packages/shared/src/recovery-readiness.ts).
-- RoundTrip proves that printed durations parse back, Lag what the observed recovery point is.
-- Contract: the recovery contract and its default (packages/shared/src/recovery-contract.ts).
-- Readiness: `computeRecoveryReadiness` (packages/shared/src/recovery-readiness.ts); Score and Status
-- prove what it computes. Readiness/Regression models `detectRecoveryRegression`, Readiness/Gate
-- `evaluateRecoveryGate` and the regression that the readiness service passes to it
-- (apps/api/src/services/recovery-readiness.service.ts), Readiness/Dimensions
-- `buildReadinessDimensionsFromJob`, and Readiness/Breaches `detectRecoveryContractBreaches`; their
-- Laws hold the proofs. Readiness/LastJob models which job the service reads.
-- Resp: `encodeCommand` and `parseResp` (apps/api/src/lib/redis-client.ts). Resp/Grammar is an
-- independent description of the protocol, against which Resp/Parsing proves the parser, on the lines
-- that Resp/Lines treats; Resp/Prefix is about a reply that is there in part, and Resp/Commands relates
-- commands to the description. Resp/Client models the class `RedisProbe`; Resp/Streaming is about its loop
-- on replies, Resp/Stuck about that loop on a malformed one.
-- Plans: packages/shared/src/plans.ts and `parseOrganizationPlan`; Plans/Retention proves the bounds of
-- a snapshot's retention.
-- Store: the rows of apps/api/src/db/schema.ts that the drills use, an update by a condition, errors.
-- Limits: apps/api/src/lib/plan-limits.ts and apps/api/src/lib/org-subscription.ts; Limits/Reaping is
-- about `reapStaleRestoreDrills`.
-- Jobs: apps/api/src/services/jobs.service.ts. The file itself has `create` and `createFromSchedule`,
-- Jobs/Claim `claimNext` and `updateRunnerProgress`, Jobs/Finish `complete`, `cancel` and the reads.
-- Jobs/Steps and Jobs/Inserts hold one rule for each operation on what it does to the store.
-- Jobs/Services has what two other services do to the table: `run` of
-- apps/api/src/services/recovery-challenges.service.ts and `recordCleanupFailure` of
-- apps/api/src/services/recovery-reconciler.service.ts.
-- Jobs/Operations is the relation of whole operations, about which Jobs/Finality, Jobs/Dates and
-- Jobs/Occupancy are; Jobs/Statements is that of single SQL statements, as overlapping calls
-- interleave them, about which Jobs/Exclusion and Jobs/Queue are.
-- Drift: apps/api/src/services/recovery-drift.service.ts; Drift/Resolution counts the open events.
-- Billing: apps/api/src/services/billing.service.ts, as actions that read and change the rows of accounts
-- and orders and may throw. Billing/Razorpay is apps/api/src/lib/razorpay.ts, Billing/Access
-- apps/api/src/lib/billing-access.ts; Billing/Subscription has the steps that operations share,
-- Billing/Checkout the operations that open a checkout, Billing/Verify `verifyStarterAutopayPayment` and
-- `handleRazorpayWebhook`. Billing/Change says what an operation may change, Billing/Effects,
-- Billing/Operations, Billing/Owned and Billing/Webhooks that each step and operation keeps to it, and Billing/History
-- the same of sequences. Billing/Settled, Billing/Payments and Billing/Once are about a repeated
-- verification, Billing/Atomic and Billing/Failures about operations that throw, Billing/Autopay about
-- the access that a subscription grants.
-- Proofs: apps/api/src/services/redis-snapshots.service.ts with the artifact store
-- (apps/api/src/lib/artifact-store.ts) as a list of keys and bytes. Proofs/Completion models
-- `completeRedisProof`, Proofs/Queue the claim, the release, the sweep of the queue and the worker
-- (apps/api/src/scheduler/redis-proof-worker.ts), Proofs/Expiry the sweep of the snapshots and reading.
-- Proofs/Dates is about the dates of proofs, Proofs/Served and Proofs/Sweeping about what the two
-- sweeps leave, Proofs/Leaks about bytes that no sweep finds, Proofs/Stored about reading back.
-- Schedules follows apps/api/src/services/schedules.service.ts and
-- apps/api/src/scheduler/poll-schedules.ts. A `ScheduleStore` is the rows of the schedules beside the
-- store of the jobs service. `create_schedule`, `update_schedule` and `remove_schedule` are the service,
-- and `tick` is a round of the poll. Starvation runs it with `create_from_schedule` of Jobs.
--
-- Points follows the discovery of apps/api/src/services/recovery-points.service.ts: `discover` is
-- `discoverAvailableRecoveryPoints`, on a `PointStore` of the points beside the store of the jobs
-- service, and `select_snapshot` picks a snapshot by time. Points/Deletion models
-- `deleteSnapshot`. Points/Named and Points/Backed are about which points a discovery leaves active and which it deletes.
--
-- A file Tests holds concrete runs and the examples that apply the theorems.
--
-- State. An operation of the service takes the time of the call and the store and returns its result and
-- the store that it leaves, also when it throws, since the calls run outside a transaction. A table is
-- the list of its rows. A thrown error is its HTTP status and code.
--
-- Numbers. Seconds, weights, scores and identifiers are natural numbers. Scores count in quarters of a
-- weight and durations with a point are exact fractions, where JavaScript has doubles; the percentage
-- of a regression is computed in doubles (Base/Doubles), since their rounding decides there. Where the
-- source can go below zero the definitions say what happens then.
--
-- Fuel. `parse`, the recursion of `parseResp`, runs on the length of the buffer plus one: a well-formed
-- reply needs more than its nesting, and each nesting takes bytes of the buffer. The outcome `deep` says
-- that the fuel ran out, which some malformed replies do reach. `drain`, the loop of `#onData`, runs on
-- the same number: each well-formed reply takes bytes. `none` says that the loop did not end.
--
-- Parameters. Whether the artifact store fails, its codec and digest, the decryption and the calendar
-- are fields of the `Setting` of proofs. The calls of the Razorpay SDK, its digest, the parsing of a
-- webhook's body and the configuration are fields of the `Context` of billing; a call answers or
-- refuses. `utf8` stands for the runtime's codec, `secret` for the stored and decrypted credential,
-- and the answer of `checkAwsSourceStatus` is an argument. So are the order in which the query of the
-- poll of schedules gives its rows, the row of a challenge that is run, the next time of a cron
-- expression, which a library computes, the credentials of AWS and the snapshots that it lists.
-- PostgreSQL's `gen_random_uuid` is the identifier that an insertion is given; that it is new is what
-- the primary key demands.
--
-- Not modelled: texts that are only shown (labels, messages of errors), paging and search, the
-- rendering of rows for the HTTP API, YAML and cryptography, processes, files, sockets and mail. The
-- other operations on recovery points and the runner are left out.
pub mod Base
pub mod Duration
pub mod Contract
pub mod Readiness
pub mod Resp
pub mod Plans
pub mod Store
pub mod Limits
pub mod Jobs
pub mod Drift
pub mod Billing
pub mod Proofs
pub mod Schedules
pub mod Points
