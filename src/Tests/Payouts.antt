-- ===== src/Tests/Payouts.antt =====
-- Payouts through their transactions, and the provider's verdict on one
-- (src/services/withdrawal.service.ts).
use duevy_be.Base.{
  ◌⊎◌, ◌≢◌, ℕ, ◌+◌, ◌≤◌, ◌≡◌, refl, true, ◌==◌, if◌then◌else◌, none, some, List, [], ◌∷◌,
}
use duevy_be.Base.Int.{pos, ◌+ℤ◌, pos_part, neg_part}
use duevy_be.Base.Table.{find_by, update_by}
use duevy_be.Base.Results.{ok}
use duevy_be.Money.{
  WithdrawalBreakdown, compute_withdrawal, withdrawal_fee, discounted_fee, mul_div_round_half_up,
  assert_kobo,
}
use duevy_be.StateMachine.{
  PayoutStatus, payout_active, can_transition_payout, assert_payout_transition,
}
use duevy_be.Store.{Db, Payout, LedgerEntry, EntryType, Direction}
use duevy_be.Ledger.{append_ledger_entry, has_conflict, get_space_balance}
use duevy_be.Withdrawal.Payouts.{
  find_payout, find_reference, processing_tx, lock_payout, update_payout, find_active, append,
  debit, create_payout, due_covers, due_available, create_tx, PayoutRequest, new_payout,
  withdraw_tx, fail_tx,
}
use duevy_be.Withdrawal.Invariant.{IsConsistent, paid_out, put_back}
use duevy_be.Withdrawal.Runs.{
  Move, completed, credited, withdraw, dispatched, apply, run, run-IsConsistent, empty-IsConsistent,
}
use duevy_be.Withdrawal.Guarantees.{
  payouts_are_accounted, no_overdraft, one_payout_in_flight, IsAsked, withdraw_tx_lem,
  fail_restores_once,
}
use duevy_be.Withdrawal.Dispatch.{
  PayoutProvider, PayoutResult, PayoutState, reply, unavailable, refresh_payout,
}
use duevy_be.Withdrawal.Escrow.{Steps}
use duevy_be.Withdrawal.Escrow.View.{escrow_of}
use duevy_be.Withdrawal.Refinement.{run-IsRefinement}
use duevy_be.Withdrawal.History.{changes, run-never_back}
use duevy_be.Withdrawal.Finishes.{HasStatus, refresh_payout_finishes}
use duevy_be.Withdrawal.Effects.{processing_row}

abbrev pub empty_db : Db
empty_db = record {
  spaces = [];
  users = [];
  reps = [];
  memberships = [];
  dues = [];
  redemptions = [];
  ledger = [];
  payouts = [];
  approvals = [];
  otps = [];
  checkouts = [];
  checkout_items = [];
  due_payments = [];
  transactions = [];
  receipts = [];
}

abbrev gift : LedgerEntry
gift = record {
  space_id = 1;
  due_id = none;
  txn_id = none;
  due_payment_id = none;
  payout_id = none;
  entry_type = EntryType.manual_credit;
  direction = Direction.credit;
  amount_kobo = 500000;
  gross_kobo = none;
  fee_kobo = none;
  net_kobo = none;
  reference = 3;
}

abbrev pub ask : PayoutRequest
ask = record {
  id = 5;
  reference = 8;
  space_id = 1;
  user_id = 2;
  due_id = none;
  amount_kobo = 200000;
  partner = none;
  approval_expires_at = none;
  beneficiary_id = none;
  destination_id = 6;
  account_id = 4;
}

abbrev pub terms : WithdrawalBreakdown
terms = record {
  gross = 200000;
  fee_before_discount = 10000;
  discount = 0;
  fee = 10000;
  net = 190000;
}

abbrev moves : List Move
moves = credited gift ∷ withdraw ask ∷ []

found_run : find_payout 5 (run moves empty_db).payouts ≡ some (new_payout ask terms)
unfolding find_by run apply append append_ledger_entry has_conflict withdraw_tx create_tx
    create_payout debit compute_withdrawal withdrawal_fee discounted_fee mul_div_round_half_up
    assert_kobo find_active find_payout find_reference due_covers get_space_balance
found_run = refl

payouts_are_accounted_example :
    (200000 ≡ 190000 + 10000)
    × (paid_out 5 (run moves empty_db).ledger ≡ 200000)
    × (put_back 5 (run moves empty_db).ledger ≡ 0)
payouts_are_accounted_example =
    payouts_are_accounted moves empty_db refl refl 5 (new_payout ask terms) found_run

no_overdraft_example : neg_part (get_space_balance 1 (run moves empty_db).ledger) ≡ 0
no_overdraft_example = no_overdraft moves empty_db refl refl 1

pending_is_active : payout_active PayoutStatus.pending ≡ true
unfolding payout_active
pending_is_active = refl

one_payout_in_flight_example : ◌≡◌ {A = ℕ} 5 5
one_payout_in_flight_example =
    one_payout_in_flight moves empty_db refl refl 5 5 (new_payout ask terms) (new_payout ask terms)
      found_run found_run refl pending_is_active pending_is_active

abbrev pub funded : Db
funded = run (credited gift ∷ []) empty_db

pub funded-IsConsistent : IsConsistent funded.payouts funded.ledger
funded-IsConsistent =
    run-IsConsistent (credited gift ∷ []) empty_db (empty-IsConsistent empty_db refl refl)

answered_run : (withdraw_tx ask funded).0 ≡ ok (new_payout ask terms)
unfolding find_by run apply append append_ledger_entry has_conflict withdraw_tx create_tx
    create_payout debit compute_withdrawal withdrawal_fee discounted_fee mul_div_round_half_up
    assert_kobo find_active find_payout find_reference due_covers get_space_balance
answered_run = refl

withdraw_tx_lem_example :
    IsAsked ask (new_payout ask terms)
    × (find_payout 5 (withdraw_tx ask funded).1.payouts ≡ some (new_payout ask terms))
    × ((b : WithdrawalBreakdown) × (compute_withdrawal 200000 0 ≡ ok b)
        × (190000 ≡ b.net)
        × (10000 ≡ b.fee)
        × (0 ≡ b.discount))
    × (find_active 1 funded.payouts ≡ none)
    × (200000 ≤ pos_part (get_space_balance 1 funded.ledger))
    × ((ask.due_id ≡ none)
        ⊎ ((due : ℕ) × (ask.due_id ≡ some due) × (200000 ≤ due_available 1 due funded)))
    × ((space : ℕ)
        → get_space_balance space funded.ledger ≡ (
            if 1 == space
            then pos 200000 +ℤ get_space_balance space (withdraw_tx ask funded).1.ledger
            else get_space_balance space (withdraw_tx ask funded).1.ledger))
withdraw_tx_lem_example = withdraw_tx_lem ask funded funded-IsConsistent answered_run

abbrev pub in_flight : Db
in_flight = run moves empty_db

pub in_flight-IsConsistent : IsConsistent in_flight.payouts in_flight.ledger
in_flight-IsConsistent = run-IsConsistent moves empty_db (empty-IsConsistent empty_db refl refl)

pending_fails : can_transition_payout PayoutStatus.pending PayoutStatus.failed ≡ true
unfolding can_transition_payout
pending_fails = refl

fail_restores_once_example :
    ((space : ℕ)
      → get_space_balance space (fail_tx 5 in_flight).1.ledger ≡ (
          if 1 == space
          then pos 200000 +ℤ get_space_balance space in_flight.ledger
          else get_space_balance space in_flight.ledger))
    × ((fail_tx 5 (fail_tx 5 in_flight).1).1 ≡ (fail_tx 5 in_flight).1)
fail_restores_once_example =
    fail_restores_once 5 in_flight in_flight-IsConsistent (new_payout ask terms) found_run
      pending_fails

abbrev pub silent : PayoutProvider
silent = record {
  initiate_payout = λ p. unavailable;
  settle_fee = λ r a. unavailable;
  get_payout = λ p. unavailable;
}

run-IsRefinement_example : Steps (escrow_of empty_db) (escrow_of (run moves empty_db))
run-IsRefinement_example = run-IsRefinement moves empty_db (empty-IsConsistent empty_db refl refl)

-- The payout is with the provider, and then the provider has sent it.
abbrev sent_moves : List Move
sent_moves = credited gift ∷ withdraw ask ∷ dispatched 5 (some 77) none ∷ []

abbrev sent_db : Db
sent_db = run sent_moves empty_db

abbrev sent_row : Payout
sent_row = processing_row (some 77) none (new_payout ask terms)

abbrev sent : PayoutResult
sent = record {
  provider_payout_id = some 77;
  state = PayoutState.succeeded;
  provider_fee_kobo = some 2500;
}

abbrev paying : PayoutProvider
paying = record {
  initiate_payout = λ p. unavailable;
  settle_fee = λ r a. unavailable;
  get_payout = λ p. reply sent;
}

found_sent : find_payout 5 sent_db.payouts ≡ some sent_row
unfolding find_by update_by run apply append append_ledger_entry has_conflict withdraw_tx create_tx
    create_payout debit compute_withdrawal withdrawal_fee discounted_fee mul_div_round_half_up
    assert_kobo find_active find_payout find_reference due_covers get_space_balance processing_tx
    lock_payout update_payout assert_payout_transition can_transition_payout
found_sent = refl

found_sent_reference : find_reference 8 sent_db.payouts ≡ some sent_row
unfolding find_by update_by run apply append append_ledger_entry has_conflict withdraw_tx create_tx
    create_payout debit compute_withdrawal withdrawal_fee discounted_fee mul_div_round_half_up
    assert_kobo find_active find_payout find_reference due_covers get_space_balance processing_tx
    lock_payout update_payout assert_payout_transition can_transition_payout
found_sent_reference = refl

refresh_payout_finishes_example :
    ((refresh_payout paying 0 5 sent_db).0 ≡ ok tt)
    × HasStatus 5 PayoutStatus.success (refresh_payout paying 0 5 sent_db).1
refresh_payout_finishes_example =
    refresh_payout_finishes paying 0 sent_db
      (run-IsConsistent sent_moves empty_db (empty-IsConsistent empty_db refl refl)) sent_row
      found_sent found_sent_reference refl refl refl sent refl PayoutStatus.success refl

run-never_back_example :
    (q : Payout) × (find_payout 5 (run (completed 8 none ∷ []) sent_db).payouts ≡ some q)
    × (changes 5 (completed 8 none ∷ []) sent_db ≤ 4)
    × (((changes 5 (completed 8 none ∷ []) sent_db ≡ 0) × (q.status ≡ PayoutStatus.processing))
        ⊎ ((1 ≤ changes 5 (completed 8 none ∷ []) sent_db) × (q.status ≢ PayoutStatus.processing)))
run-never_back_example =
    run-never_back (completed 8 none ∷ []) 5 sent_row sent_db
      (run-IsConsistent sent_moves empty_db (empty-IsConsistent empty_db refl refl)) found_sent
