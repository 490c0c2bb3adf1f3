-- ===== src/Lib.antt =====
-- Verification library of the Duevy backend: the payment of dues and the withdrawal of what was
-- collected. A space (a class or a department) collects dues from its students through checkouts,
-- keeps an append-only ledger, and its reps withdraw the balance to a bank. The services write the
-- PostgreSQL tables through Prisma; a payment provider reports outcomes by webhooks.
--
-- The parts, with the code that each models:
--   Base          names, lists, integers, errors as values and tables, shared by all. Base/Stateful is a
--                 service function over a state: it answers or throws, `transaction` takes back what
--                 was written before a throw, and Keeps has a rule for each way to combine such
--                 functions under an invariant
--   Money         src/lib/money.ts: fees, breakdowns, shares of a fee (Allocate), decimal texts (Decimal)
--   StateMachine  src/lib/stateMachine.ts: the graphs of checkouts and payouts, and their histories
--   Store         prisma/schema.prisma: the rows that decide something, and the database of them;
--                 Store/Action is a service function over it
--   Ledger        src/services/ledger.service.ts: appendLedgerEntry, getSpaceBalance, getDueAvailability,
--                 getSpaceLedgerSummary
--   Withdrawal    src/services/withdrawal.service.ts: Payouts has its transactions, Pin the withdrawal
--                 code, Request the guards before the transaction, Dispatch the provider's answers;
--                 Invariant, Preserve, Effects, Create, Moves, Runs and Provider carry the proofs,
--                 Whole goes from the guards to the dispatch; Escrow is an abstract view of the
--                 money, with purses and phases, Refinement goes from the tables to it,
--                 History counts the changes of a status, and Finishes follows a payout to the
--                 provider's verdict
--   Reconciliation  src/jobs/reconciliation.ts: the job over payouts, fees and stale approvals; Sweep
--                 has the proofs
--   Bcrypt        the parameter that stands for bcryptjs
--   Signatory     src/services/signatory.service.ts: who signs, and the holds
--   Approval      src/services/withdrawalApproval.service.ts: one-time codes and signatures
--   Checkout      src/services/checkout.service.ts: Create opens a checkout, Outcomes ends it
--   Kyc           src/services/kyc.service.ts: a rep's identity. Submit, Refresh and Review are its
--                 operations; Closing, Retries, Verdicts, Reviewed and Runs are on when a case is
--                 closed, how often it is tried, and who collects
--   Poll          src/routes/polls.ts and src/services/poll.service.ts: Slug, Manage, Vote and Tally;
--                 Once, Runs and Locked are on the votes and on what an open poll lets change
--   Beneficiary   src/services/beneficiary.service.ts: the accounts a rep withdraws to; Listed and Room
--                 are on their number and on duplicates
--   Referral      src/services/referral.service.ts and src/lib/referral.ts: rewards; Once is on paying
--   RepDues       src/routes/repDues.ts: the dues of a space, as its reps change them; Kept is on the
--                 payments that have been made
--   Partner       src/services/partner.service.ts: redeeming a code
--   Webhooks      src/services/webhookProcessor.service.ts and src/jobs/webhookWorker.ts: Queue and Process
--                 are the operations, Life the table over many of them, Exclusive the claimed batches,
--                 Retries the pauses
--   Idempotency   src/middleware/idempotency.ts
--   Access        src/middleware/requireRole.ts
--   Tests         the same code at concrete inputs
-- The parts meet in the database: a withdrawal is released by Approval, which asks Signatory who signs;
-- a checkout and a withdrawal both ask whether the space's reps are verified, by the columns that Kyc
-- writes; webhooks and the reconciliation job end what Checkout and Withdrawal began. Kyc, Poll,
-- Beneficiary, Referral and RepDues each have a state of the tables that they use.
-- A definition has its source's name in snake case; the transaction of a function `f` is `f_tx`.
--
-- Kobo amounts are natural numbers, held to Number.MAX_SAFE_INTEGER where the source checks it; a
-- balance is an integer. Ids, references, hashes and times in milliseconds are numbers. Transactions
-- are atomic, as the row locks and the advisory locks make them, so concurrent requests are a list of
-- transactions (Withdrawal/Runs). Loops follow their lists; `drainWebhookQueue` has the bound on
-- batches that the source gives it, and `toString` has as much fuel as its number, which is enough as
-- each digit divides it by ten. A sum of JavaScript numbers past 2^53 is rounded with 971 doublings at
-- most, the largest exponent of such a number.
--
-- Parameters: bcrypt, the payment and the identity provider's answers, the file store, the
-- cipher of account numbers with the bank list and the name enquiry, the target of a withdrawal at
-- the provider, the clock, drawn ids and references.
-- Not modelled: the other routes (admin, payouts, auth), notices and mail, the audit trail, texts for
-- people, the reminders, the bank codes and events of one provider, the assistant, PDF receipts and
-- logging.
pub mod Base
pub mod Money
pub mod StateMachine
pub mod Store
pub mod Ledger
pub mod Withdrawal
pub mod Bcrypt
pub mod Signatory
pub mod Approval
pub mod Checkout
pub mod Webhooks
pub mod Idempotency
pub mod Access
pub mod Partner
mod Tests
pub mod Kyc
pub mod Poll
pub mod Reconciliation
pub mod Beneficiary
pub mod Referral
pub mod RepDues
