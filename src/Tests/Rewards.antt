-- ===== src/Tests/Rewards.antt =====
-- Beneficiaries, referrals and dues (src/services/beneficiary.service.ts,
-- src/services/referral.service.ts, src/routes/repDues.ts).
use duevy_be.Base.{refl, false, none, some, List, [], ◌∷◌, arith}
use duevy_be.Base.Results.{ok}
use duevy_be.Beneficiary.{NewBeneficiary, BankCalls}
use duevy_be.Beneficiary.Listed.{IsListed}
use duevy_be.Beneficiary.Room.{Move, add, remove, finish_add, run, run-IsListed}
use duevy_be.Base.Table.{find_by}
use duevy_be.Store.{Db, Due, DueStatus, DuePayment}
use duevy_be.Tests.Payouts.{empty_db}
use duevy_be.RepDues.{find_due, has_payments}
use duevy_be.RepDues.Kept.{IsPaidFor, patch, close, delete, run-IsPaidFor}
use duevy_be.Referral.{Referral, ReferralStatus, ReferralDb}
use duevy_be.Referral.Once.{IsPaidOnce, award, finish_award, run-IsPaidOnce}

-- A bank that knows every account, and a cipher that changes nothing.
abbrev bank : BankCalls
bank = record {
  bank_names = λ code. some code;
  resolve_account = λ code number. ok (some 1);
  register_destination = λ account code number name. ok 2;
  encrypt = λ nonce number. number;
  decrypt = λ number. number;
  mask = λ number. number;
}

abbrev vendor : NewBeneficiary
vendor = record {
  space_id = 1;
  actor_id = 3;
  actor_account = 50;
  bank_code = 58;
  account_number = 123;
  label = some 7;
}

-- The vendor is added, again by a request that checked before, and removed.
abbrev requests : List Move
requests =
    add 10 0 vendor
    ∷ finish_add 11 0 vendor (record { bank_name = 58; account_name = 1 }) 2
    ∷ remove 1 10
    ∷ []

no_beneficiary : IsListed bank []
no_beneficiary = record { few = λ space. omega arith; single = λ space code number. omega arith }

run-IsListed_example : IsListed bank (run bank requests [])
run-IsListed_example = run-IsListed bank (λ nonce number. refl) requests [] no_beneficiary

abbrev invited : Referral
invited = record {
  id = 1;
  referrer_id = 2;
  referred_id = 3;
  status = ReferralStatus.joined;
  reward = 0;
}

abbrev joined_db : ReferralDb
joined_db = record { referrals = invited ∷ []; discount_codes = []; transactions = [] }

joined-IsPaidOnce : IsPaidOnce joined_db
joined-IsPaidOnce = record { unique = λ id. ground arith; matched = refl; amounts = refl }

-- Two payments race for one reward, and a third comes later.
abbrev payments : List duevy_be.Referral.Once.Move
payments =
    award 3 (70 ∷ []) 71 (80 ∷ []) 81
    ∷ finish_award invited 82 72
    ∷ award 3 (73 ∷ []) 74 (83 ∷ []) 84
    ∷ []

run-IsPaidOnce_example : IsPaidOnce (duevy_be.Referral.Once.run payments joined_db)
run-IsPaidOnce_example = run-IsPaidOnce payments joined_db joined-IsPaidOnce

abbrev levy : Due
levy = record {
  id = 4;
  space_id = 1;
  amount = 5000;
  status = DueStatus.active;
  allow_guests = false;
  assigned_rep_id = some 3;
  created_at = 0;
}

abbrev payment : DuePayment
payment = record {
  id = 1;
  user_id = 8;
  due_id = 4;
  checkout_id = none;
  txn_id = none;
  reference = 9;
  amount_paid = 5000;
  duevy_fee = 0;
  net_to_space = 5000;
}

abbrev paid_db : Db
paid_db = record empty_db { dues = levy ∷ []; due_payments = payment ∷ [] }

levy-IsPaidFor : IsPaidFor 4 5000 paid_db
unfolding find_due find_by has_payments
levy-IsPaidFor = record { row = levy; found = refl; same = refl; opened = refl; paid = refl }

-- The rep tries another amount, closes the due, and tries to delete it.
abbrev attempts : List duevy_be.RepDues.Kept.Move
attempts =
    patch 1 4 (record { amount = some 9000; allow_guests = none; has_text = false })
    ∷ close 1 4
    ∷ delete 1 4
    ∷ []

run-IsPaidFor_example : IsPaidFor 4 5000 (duevy_be.RepDues.Kept.run attempts paid_db)
run-IsPaidFor_example = run-IsPaidFor 4 5000 attempts paid_db levy-IsPaidFor
