-- ===== src/Tests/Requests.antt =====
-- Withdrawal codes, whole requests, signatures and the reconciliation job
-- (src/services/withdrawal.service.ts, src/services/withdrawalApproval.service.ts,
-- src/jobs/reconciliation.ts).
use duevy_be.Base.{ℕ, ◌≡◌, refl, true, false, ◌==◌, none, some, [], ◌∷◌, arith}
use duevy_be.Base.Table.{find_by, update_by}
use duevy_be.Base.Results.{Result, ok, err, app_error, Code, is_ok}
use duevy_be.Money.{
  compute_withdrawal, withdrawal_fee, discounted_fee, mul_div_round_half_up, assert_kobo,
}
use duevy_be.StateMachine.{PayoutStatus}
use duevy_be.Store.{
  Db, Payout, Space, AuthMode, Decision, User, RepRole, KycStatus, StudentIdStatus,
}
use duevy_be.Ledger.{append_ledger_entry, has_conflict, get_space_balance}
use duevy_be.Withdrawal.Request.{
  WithdrawalRequest, Target, request_withdrawal, check_request, fix_request, get_active_discount,
  unique_payout_reference, renaming,
}
use duevy_be.Withdrawal.Whole.{request_withdrawal-IsConsistent}
use duevy_be.Reconciliation.{PayoutTimes, reconcile_payouts}
use duevy_be.Reconciliation.Sweep.{reconcile_payouts-IsConsistent}
use duevy_be.Bcrypt.{Bcrypt}
use duevy_be.Signatory.{find_space, update_space, find_user, get_signatory_ids}
use duevy_be.Checkout.Create.{can_collect, can_withdraw}
use duevy_be.Withdrawal.Payouts.{
  find_payout, find_reference, find_active, append, debit, create_payout, due_covers, create_tx,
  new_payout, withdraw_tx,
}
use duevy_be.Withdrawal.Invariant.{IsConsistent}
use duevy_be.Withdrawal.Runs.{apply, run}
use duevy_be.Withdrawal.Dispatch.{dispatch_payout}
use duevy_be.Withdrawal.Pin.{check_pin, wrong_pin, verify_authorisation, authorise_scope}
use duevy_be.Withdrawal.Lockout.{fifth_wrong_pin_locks}
use duevy_be.Tests.Payouts.{
  empty_db, ask, terms, funded, funded-IsConsistent, in_flight, in_flight-IsConsistent, silent,
}

-- A hash that is the text itself.
abbrev plain : Bcrypt
plain = record {
  hash = λ salt text. text;
  compare = λ text hash. text == hash;
  compare_hash = λ salt text. ground arith;
}

abbrev guarded : Space
guarded = record {
  id = 1;
  is_archived = false;
  payouts_frozen = false;
  withdrawal_auth_mode = AuthMode.pin;
  withdrawal_pin_hash = some 2468;
  withdrawal_pin_set_at = some 0;
  withdrawal_pin_failed_attempts = 4;
  withdrawal_pin_locked_until = none;
  withdrawal_pin_hold_until = none;
}

abbrev guarded_db : Db
guarded_db = record empty_db { spaces = guarded ∷ [] }

guarded_run : find_space 1 guarded_db.spaces ≡ some guarded
unfolding find_space find_by
guarded_run = refl

abbrev locked_space : Space
locked_space = record guarded {
  withdrawal_pin_failed_attempts = 0;
  withdrawal_pin_locked_until = some 1800100;
}

locked_run : find_space 1 (check_pin plain 100 guarded 1111 guarded_db).1.spaces ≡ some locked_space
unfolding find_by update_by find_space check_pin wrong_pin update_space
locked_run = refl

fifth_wrong_pin_locks_example :
    ((check_pin plain 100 guarded 1111 guarded_db).0
      ≡ err (app_error 423 Code.withdrawal_pin_locked))
    × (check_pin plain 200 locked_space 2468 (check_pin plain 100 guarded 1111 guarded_db).1 ≡ (
      err (app_error 423 Code.withdrawal_pin_locked),
      (check_pin plain 100 guarded 1111 guarded_db).1,
    ))
fifth_wrong_pin_locks_example =
    fifth_wrong_pin_locks plain 100 1111 2468 guarded guarded_db guarded_run refl refl refl refl 200
      2468 locked_space (omega arith) locked_run

abbrev waiting : Payout
waiting = record (new_payout ask terms) {
  status = PayoutStatus.awaiting_approval;
  approval_expires_at = some 900;
}

abbrev waiting_db : Db
waiting_db = record empty_db {
  payouts = waiting ∷ [];
  approvals = record { payout_id = 5; rep_user_id = 2; decision = Decision.approved } ∷ [];
}

abbrev lead_rep_user : User
lead_rep_user = record {
  id = 3;
  is_suspended = false;
  is_deactivated = false;
  kyc_status = KycStatus.verified;
  bachs_account_id = some 50;
  bachs_payouts_active = true;
  student_id_status = some StudentIdStatus.approved;
  password_hash = none;
}

-- The space of the payouts above, with its lead and a code that is not locked.
abbrev ready_db : Db
ready_db = record funded {
  spaces = record guarded { withdrawal_pin_failed_attempts = 0 } ∷ [];
  users = lead_rep_user ∷ [];
  reps =
      record { user_id = 3; space_id = 1; role = RepRole.lead; is_signatory = false; added_at = 0 }
      ∷ [];
}

abbrev wanted : WithdrawalRequest
wanted = record { space_id = 1; user_id = 3; amount_kobo = 200000; due_id = none; pin = some 2468 }

abbrev to_bank : ℕ → Result Target
to_bank account = ok record { beneficiary_id = none; destination_id = 60 }

request_withdrawal-IsConsistent_example :
    IsConsistent
      (request_withdrawal plain 100 9 (77 ∷ []) silent to_bank wanted ready_db).1.payouts
      (request_withdrawal plain 100 9 (77 ∷ []) silent to_bank wanted ready_db).1.ledger
request_withdrawal-IsConsistent_example =
    request_withdrawal-IsConsistent plain 100 9 (77 ∷ []) silent to_bank wanted ready_db
      funded-IsConsistent

-- The request gets through to the provider, which is silent.
request_gets_through :
    is_ok (request_withdrawal plain 100 9 (77 ∷ []) silent to_bank wanted ready_db).0 ≡ true
unfolding request_withdrawal check_request fix_request find_by update_by run apply append
    append_ledger_entry has_conflict withdraw_tx create_tx create_payout debit compute_withdrawal
    withdrawal_fee discounted_fee mul_div_round_half_up assert_kobo find_active find_space find_user
    get_space_balance get_active_discount authorise_scope verify_authorisation check_pin
    get_signatory_ids can_withdraw can_collect unique_payout_reference find_reference renaming
    dispatch_payout find_payout due_covers
request_gets_through = refl

abbrev times : PayoutTimes
times = record { ours = λ id. true; requested_at = λ id. 0; processing_at = λ id. some 0 }

reconcile_payouts-IsConsistent_example :
    IsConsistent
      (reconcile_payouts times 1000000 silent in_flight).1.payouts
      (reconcile_payouts times 1000000 silent in_flight).1.ledger
reconcile_payouts-IsConsistent_example =
    reconcile_payouts-IsConsistent times 1000000 silent in_flight in_flight-IsConsistent
