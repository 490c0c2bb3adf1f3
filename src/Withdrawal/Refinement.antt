-- ===== src/Withdrawal/Refinement.antt =====
-- The transactions of src/services/withdrawal.service.ts as steps of the purses of Withdrawal/Escrow.
use duevy_be.Base.{
  ℕ, ◌+◌, ◌≤◌, ◌≡◌, refl, true, ◌==◌, leb, if◌then◌else◌, Option, some, List, [], ◌∷◌, Bool-cases,
  Option-cases, inl, inr, arith,
}
use duevy_be.Base.Int.{ℤ, pos_part-add, pos_part, neg_part}
use duevy_be.StateMachine.{PayoutStatus, can_transition_payout}
use duevy_be.Store.{Db, Payout, LedgerEntry}
use duevy_be.Ledger.{Ledger, get_space_balance}
use duevy_be.Withdrawal.Payouts.{
  find_payout, append, create_tx, PayoutRequest, withdraw_tx, fail_tx, cancel_tx, processing_tx,
  complete_tx, fee_settled_tx, failed_status, new_payout,
}
use duevy_be.Withdrawal.Invariant.{IsConsistent}
use duevy_be.Withdrawal.Preserve.{updated, reversal_of}
use duevy_be.Withdrawal.Effects.{
  fail_tx_lem, fail_tx-unchanged, failed_row, cancel_tx_lem, cancel_tx-unchanged, cancelled_row,
  processing_tx-cases, processing_row, complete_tx-cases, success_row, update_payout_lem,
}
use duevy_be.Withdrawal.Create.{
  create_tx-cases, withdraw_tx-cases, new_payout-IsNew, debited, IsNew, find_payout-cons,
  created-IsConsistent,
}
use duevy_be.Withdrawal.Guarantees.{debited-balance}
use duevy_be.Withdrawal.Moves.{append-cases, is_plain_credit, settled_row, updated-none, own_id}
use duevy_be.Withdrawal.Runs.{
  Move, withdraw, approve, dispatched, completed, failed, cancelled, fee_settled, credited, apply,
  run, apply-IsConsistent,
}
use duevy_be.Approval.{approve_tx, count_approvals, required_approvals}
use duevy_be.Approval.Signing.{approve_tx-cases, released_row, signature}
use duevy_be.Withdrawal.Escrow.{Phase, Step, Steps}
use duevy_be.Withdrawal.Escrow.View.{
  escrow_of, unmoved, row_phase, within-phase, purse-credited, gives_back,
}

failed-Step :
    (id : ℕ) (db : Db)
    → IsConsistent db.payouts db.ledger
    → Step (escrow_of db) (escrow_of (fail_tx id db).1)
failed-Step id db c = elim (Option-cases (find_payout id db.payouts)) [
  | inl gone ↦ unmoved (fail_tx id db).1 db (fail_tx-unchanged id db (inl gone))
  | inr (p, found) ↦ elim (Bool-cases (can_transition_payout p.status (failed_status p.status))) [
    | inr no_way ↦ unmoved (fail_tx id db).1 db (fail_tx-unchanged id db (inr (p, found, no_way)))
    | inl can ↦ rw (fail_tx_lem id db c p found can) (
        gives_back id (failed_row p) p db
          (record db {
            payouts = updated p.id (failed_row p) db.payouts;
            ledger = reversal_of p ∷ db.ledger;
          })
          c (λ r. refl) found (unfold can_transition_payout in ground (arith, can)) (ground arith)
          refl refl)
  ]
]

cancelled-Step :
    (id : ℕ) (db : Db)
    → IsConsistent db.payouts db.ledger
    → Step (escrow_of db) (escrow_of (cancel_tx id db).1)
cancelled-Step id db c = elim (Option-cases (find_payout id db.payouts)) [
  | inl gone ↦ unmoved (cancel_tx id db).1 db (cancel_tx-unchanged id db (inl gone))
  | inr (p, found) ↦ elim (Bool-cases (can_transition_payout p.status PayoutStatus.cancelled)) [
    | inr no_way ↦
        unmoved (cancel_tx id db).1 db (cancel_tx-unchanged id db (inr (p, found, no_way)))
    | inl can ↦
        gives_back id cancelled_row p db (cancel_tx id db).1 c (λ r. refl) found
          (unfold can_transition_payout in ground (arith, can)) refl
          (rw (cancel_tx_lem id db c p found can) refl)
          (rw (cancel_tx_lem id db c p found can) refl)
  ]
]

dispatched-Step :
    (id : ℕ) (x y : Option ℕ) (db : Db)
    → Step (escrow_of db) (escrow_of (processing_tx id x y db).1)
dispatched-Step id x y db = elim (processing_tx-cases id x y db) [
  | inl same ↦ unmoved (processing_tx id x y db).1 db same
  | inr (p, found, waits, done) ↦
      within-phase id (processing_row x y) p db (processing_tx id x y db).1 (λ r. refl) found
        (ground (arith, waits)) (rw done refl) (rw done refl)
]

completed-Step :
    (reference : ℕ) (fee : Option ℕ) (db : Db)
    → Step (escrow_of db) (escrow_of (complete_tx reference fee db).1)
completed-Step reference fee db = elim (complete_tx-cases reference fee db) [
  | inl same ↦ unmoved (complete_tx reference fee db).1 db same
  | inr (id, p, found, can, done) ↦
      within-phase id (success_row fee) p db (complete_tx reference fee db).1 (λ r. refl) found
        (unfold can_transition_payout in ground (arith, can)) (rw done refl) (rw done refl)
]

approved-Step :
    (payout user : ℕ) (signatories : List ℕ) (db : Db)
    → Step (escrow_of db) (escrow_of (approve_tx payout user signatories db).1)
approved-Step payout user signatories db = elim (approve_tx-cases payout user signatories db) [
  | inl same ↦ unmoved (approve_tx payout user signatories db).1 db same
  | inr (p, found, waits, _, done) ↦
      elim (Bool-cases (
        leb required_approvals
          (count_approvals payout signatories (signature payout user ∷ db.approvals)))) [
            | inl enough ↦
                within-phase payout released_row p db (approve_tx payout user signatories db).1
                  (λ r. refl) found (ground (arith, waits)) (rw (done, enough) refl)
                  (rw (done, enough) refl)
            | inr short ↦ rw (done, short) (Step.idle (λ s. refl) (λ i. refl))
          ]
]

settled-Step :
    (id now : ℕ) (amount : ℤ) (db : Db)
    → Step (escrow_of db) (escrow_of (fee_settled_tx id now amount db).1)
unfolding fee_settled_tx
settled-Step id now amount db =
    rw (update_payout_lem id (settled_row now amount) db)
      (elim (Option-cases (find_payout id db.payouts)) [
        | inl gone ↦
            Step.idle (λ s. refl)
              (λ i. rw (updated-none id (settled_row now amount) db.payouts gone) refl)
        | inr (p, found) ↦
            within-phase id (settled_row now amount) p db
              (record db { payouts = updated id (settled_row now amount) db.payouts }) (λ r. refl)
              found refl (rw (own_id db.payouts id p found) refl) refl
      ])

credited-Step :
    (e : LedgerEntry) (db : Db)
    → IsConsistent db.payouts db.ledger
    → is_plain_credit e ≡ true
    → Step (escrow_of db) (escrow_of (append e db).1)
credited-Step e db c plain = elim (append-cases e db) [
  | inl same ↦ unmoved (append e db).1 db same
  | inr new ↦ rw new (
      Step.collect e.space_id e.amount_kobo
        (λ s. purse-credited e db.ledger s (ground arith) (c.solvent s)) (λ i. refl))
]

new_row_taken : (p : Payout) → IsNew p → row_phase (some p) ≡ Phase.taken p.space_id p.amount
new_row_taken p n = ground (arith, n.waits)

-- The purse before a withdrawal is what the ledger's two debits leave, and the amount.
purse-debited :
    (p : Payout) (l : Ledger) (s : ℕ)
    → IsNew p
    → p.amount ≤ pos_part (get_space_balance p.space_id l)
    → neg_part (get_space_balance s (debited p l)) ≡ 0
    → pos_part (get_space_balance s l) ≡ (
        if p.space_id == s
        then p.amount + pos_part (get_space_balance s (debited p l))
        else pos_part (get_space_balance s (debited p l)))
purse-debited p l s n fits after = elim (Bool-cases (p.space_id == s)) [
  | inl here ↦
      rw (debited-balance p l s n fits, here)
        (pos_part-add p.amount (get_space_balance s (debited p l)) after)
  | inr there ↦ rw (debited-balance p l s n fits, there) refl
]

created-Step :
    (p : Payout) (db : Db)
    → IsConsistent db.payouts db.ledger
    → IsNew p
    → Step (escrow_of db) (escrow_of (create_tx p db).1)
created-Step p db c n = elim (create_tx-cases p db c n) [
  | inl (same, _) ↦ unmoved (create_tx p db).1 db same
  | inr (quiet, fits, _, fresh, done) ↦
      let after = created-IsConsistent p db.payouts db.ledger c n quiet fits fresh in
      rw done (
        Step.take p.id p.space_id p.amount (rw fresh refl) fits
          (λ s. purse-debited p db.ledger s n fits (after.solvent s))
          (λ i. ground (arith, find_payout-cons i p db.payouts, new_row_taken p n)))
]

withdrawn-Step :
    (r : PayoutRequest) (db : Db)
    → IsConsistent db.payouts db.ledger
    → Step (escrow_of db) (escrow_of (withdraw_tx r db).1)
withdrawn-Step r db c = elim (withdraw_tx-cases r db) [
  | inl (same, _) ↦ unmoved (withdraw_tx r db).1 db same
  | inr (b, low, high, e, done) ↦
      rw done (created-Step (new_payout r b) db c (new_payout-IsNew r b low high e))
]

pub apply-Step :
    (m : Move) (db : Db)
    → IsConsistent db.payouts db.ledger
    → Step (escrow_of db) (escrow_of (apply m db))
unfolding apply
apply-Step (withdraw r) db c = withdrawn-Step r db c
apply-Step (approve payout user signatories) db c = approved-Step payout user signatories db
apply-Step (dispatched id a b) db c = dispatched-Step id a b db
apply-Step (completed reference fee) db c = completed-Step reference fee db
apply-Step (failed id) db c = failed-Step id db c
apply-Step (cancelled id) db c = cancelled-Step id db c
apply-Step (fee_settled id now amount) db c = settled-Step id now amount db
apply-Step (credited e) db c = elim (Bool-cases (is_plain_credit e)) [
  | inl plain ↦ rw plain (credited-Step e db c plain)
  | inr other ↦ rw other (Step.idle (λ s. refl) (λ i. refl))
]

-- Start with a consistent database and run any list of transactions, committed or refused, in any
-- order. What the payouts and the ledger stand for goes by steps of the purses: a payout takes its
-- amount once, out of a purse that has it, and gives the same amount back to the same purse once at
-- most; only a credit that belongs to no payout adds to a purse besides.
pub run-IsRefinement :
    (ms : List Move) (db : Db)
    → IsConsistent db.payouts db.ledger
    → Steps (escrow_of db) (escrow_of (run ms db))
unfolding run
run-IsRefinement [] db c = Steps.done
run-IsRefinement (m ∷ ms) db c =
    Steps.next (apply-Step m db c) (run-IsRefinement ms (apply m db) (apply-IsConsistent m db c))
