-- ===== src/Withdrawal/Runs.antt =====
-- Transactions of many requests, signatories, webhooks and reconciliation runs, interleaved in any
-- order. Each is atomic (row and space locks), so an interleaving is a list of transactions.
use duevy_be.Base.{ℕ, ◌≡◌, refl, if◌then◌else◌, Option, List, [], ◌∷◌, Bool-cases, inl, inr, arith}
use duevy_be.Base.Table.{find_by}
use duevy_be.Base.Int.{ℤ}
use duevy_be.Store.{Db, LedgerEntry}
use duevy_be.Ledger.{get_space_balance}
use duevy_be.Withdrawal.Payouts.{
  find_payout, PayoutRequest, withdraw_tx, processing_tx, complete_tx, fail_tx, cancel_tx,
  fee_settled_tx, append,
}
use duevy_be.Withdrawal.Invariant.{IsConsistent}
use duevy_be.Withdrawal.Create.{withdraw_tx-IsConsistent}
use duevy_be.Approval.{approve_tx}
use duevy_be.Withdrawal.Moves.{
  is_plain_credit, dispatched-IsConsistent, completed-IsConsistent, approved-IsConsistent,
  failed-IsConsistent, cancelled-IsConsistent, settled-IsConsistent, credited-IsConsistent,
}

-- One committed (or rolled back) transaction on the payouts or the ledger.
pub data Move : Type 0 where
  withdraw : PayoutRequest → Move
  approve : ℕ → ℕ → List ℕ → Move
  dispatched : ℕ → Option ℕ → Option ℕ → Move
  completed : ℕ → Option ℕ → Move
  failed : ℕ → Move
  cancelled : ℕ → Move
  fee_settled : ℕ → ℕ → ℤ → Move
  -- A credit to a space that belongs to no payout: a collection, or an admin's manual credit.
  credited : LedgerEntry → Move

unfoldable pub apply : Move → Db → Db
apply (withdraw r) db = (withdraw_tx r db).1
apply (approve payout user signatories) db = (approve_tx payout user signatories db).1
apply (dispatched id provider_id fee) db = (processing_tx id provider_id fee db).1
apply (completed reference fee) db = (complete_tx reference fee db).1
apply (failed id) db = (fail_tx id db).1
apply (cancelled id) db = (cancel_tx id db).1
apply (fee_settled id now amount) db = (fee_settled_tx id now amount db).1
apply (credited e) db = if is_plain_credit e then (append e db).1 else db

unfoldable pub run : List Move → Db → Db
run [] db = db
run (m ∷ ms) db = run ms (apply m db)

-- Every transaction, whether it commits or not, keeps the payouts and the ledger consistent.
pub apply-IsConsistent :
    (m : Move) (db : Db)
    → IsConsistent db.payouts db.ledger
    → IsConsistent (apply m db).payouts (apply m db).ledger
unfolding apply
apply-IsConsistent (withdraw r) db c = withdraw_tx-IsConsistent r db c
apply-IsConsistent (approve payout user signatories) db c =
    approved-IsConsistent payout user signatories db c
apply-IsConsistent (dispatched id a b) db c = dispatched-IsConsistent id a b db c
apply-IsConsistent (completed reference fee) db c = completed-IsConsistent reference fee db c
apply-IsConsistent (failed id) db c = failed-IsConsistent id db c
apply-IsConsistent (cancelled id) db c = cancelled-IsConsistent id db c
apply-IsConsistent (fee_settled id now amount) db c = settled-IsConsistent id now amount db c
apply-IsConsistent (credited e) db c = elim (Bool-cases (is_plain_credit e)) [
  | inl plain ↦ rw plain (credited-IsConsistent e db c plain)
  | inr other ↦ rw other c
]

pub run-IsConsistent :
    (ms : List Move) (db : Db)
    → IsConsistent db.payouts db.ledger
    → IsConsistent (run ms db).payouts (run ms db).ledger
unfolding run
run-IsConsistent [] db c = c
run-IsConsistent (m ∷ ms) db c = run-IsConsistent ms (apply m db) (apply-IsConsistent m db c)

nothing-IsConsistent : IsConsistent [] []
unfolding find_payout find_by get_space_balance
nothing-IsConsistent = record {
  accounted = λ id p h. absurd (ground arith);
  unused = λ id h. record {
    no_debit = refl;
    no_credit = refl;
    no_payout = refl;
    no_fee = refl;
    no_reversal = refl;
  };
  one_active = λ i j s p q hi hj ai aj. absurd (ground arith);
  solvent = λ s. refl;
}

-- With no payouts and an empty ledger the invariant holds.
pub empty-IsConsistent :
    (db : Db) → db.payouts ≡ [] → db.ledger ≡ [] → IsConsistent db.payouts db.ledger
empty-IsConsistent db no_payouts no_entries = rw (no_payouts, no_entries) nothing-IsConsistent
