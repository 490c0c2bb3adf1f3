-- ===== src/Withdrawal/Dispatch.antt =====
-- Sending a withdrawal and following it up: `dispatchPayout`, `completePayout`, `failPayout`,
-- `settleWithdrawalFee` and `refreshPayout`. The provider is not part of the program: what it answers
-- to a call is an argument, and a call whose answer is lost has the answer `unavailable`. The
-- notifications sent to people at the end are left out.
use duevy_be.Base.{ℕ, Bool, true, false, ◌&&◌, ◌==◌, not, if◌then◌else◌, Option, none, some, get_or}
use duevy_be.Base.Int.{ℤ, pos, negsuc, ◌-ℤ◌}
use duevy_be.StateMachine.{PayoutStatus, is_payout}
use duevy_be.Base.Results.{provider_refused, provider_unavailable}
use duevy_be.Store.{Payout}
use duevy_be.Store.Action.{Action, pure, raise, gets, ◌>>=◌, ◌>>◌, when, ignore_errors}
use duevy_be.Withdrawal.Payouts.{
  find_payout, find_reference, processing_tx, complete_tx, fail_tx, fee_settled_tx, taken,
}

pub data PayoutState : Type 0 where
  pending processing succeeded failed : PayoutState

pub record PayoutResult : Type 0 where
  pub provider_payout_id : Option ℕ
  pub state : PayoutState
  pub provider_fee_kobo : Option ℕ

-- An answer, a `ProviderError` that is not retryable, or any other error.
pub data Reply (A : Type 0) : Type 0 where
  reply : A → Reply A
  refused : Reply A
  unavailable : Reply A

-- The provider's calls, by our reference.
pub record PayoutProvider : Type 0 where
  pub initiate_payout : Payout → Reply PayoutResult
  pub settle_fee : ℕ → ℤ → Reply (Unit {0})
  pub get_payout : Payout → Reply PayoutResult

-- `p.feeKobo - (p.providerFeeKobo ?? 0)`
abbrev pub fee_settlement : Payout → ℤ
fee_settlement p = pos p.fee_kobo -ℤ pos (get_or p.provider_fee_kobo 0)

abbrev pub is_zero : ℤ → Bool
is_zero (pos n) = n == 0
is_zero (negsuc n) = false

-- `p.status !== 'success' || p.feeSettledAt || !p.providerAccountId`
abbrev pub settles : Payout → Bool
settles p =
    is_payout p.status PayoutStatus.success
    && not (taken p.fee_settled_at)
    && taken p.provider_account_id

module _ (provider : PayoutProvider) (now : ℕ) where
  -- A lost or refused call throws; the callers defer it.
  unfoldable pub settle_withdrawal_fee : ℕ → Action (Unit {0})
  settle_withdrawal_fee id = do
    found ← gets (λ db. find_payout id db.payouts)
    elim found [
      | none ↦ pure tt
      | some p ↦ when (settles p) (
          if is_zero (fee_settlement p)
          then fee_settled_tx p.id now (fee_settlement p)
          else elim (provider.settle_fee p.reference (fee_settlement p)) [
            | reply _ ↦ fee_settled_tx p.id now (fee_settlement p)
            | refused ↦ raise provider_refused
            | unavailable ↦ raise provider_unavailable
          ])
    ]

  -- The answer says whether it was completed now.
  unfoldable pub complete_payout : ℕ → Option ℕ → Action Bool
  complete_payout reference fee = do
    done ← complete_tx reference fee
    elim done [
      | none ↦ pure false
      | some id ↦ do ignore_errors (settle_withdrawal_fee id); pure true
    ]

  -- The provider's refund of a fee already swept writes nothing here.
  unfoldable pub fail_payout : ℕ → Action Bool
  fail_payout id = do done ← fail_tx id; pure (taken done)

  unfoldable pub fail_payout_by_reference : ℕ → Action Bool
  fail_payout_by_reference reference = do
    found ← gets (λ db. find_reference reference db.payouts)
    elim found [ none ↦ pure false | some p ↦ fail_payout p.id ]

  -- What the caller does with the state that the provider reports.
  unfoldable pub apply_state : Payout → PayoutResult → Action (Unit {0})
  apply_state p result = elim result.state [
    | pending ↦ pure tt
    | processing ↦ pure tt
    | succeeded ↦ complete_payout p.reference result.provider_fee_kobo >>= λ _. pure tt
    | failed ↦ fail_payout p.id >>= λ _. pure tt
  ]

  -- `unavailable` leaves the payout pending: reconciliation asks again with the same reference.
  unfoldable pub dispatch_payout : ℕ → Action (Unit {0})
  dispatch_payout id = do
    found ← gets (λ db. find_payout id db.payouts)
    elim found [
      | none ↦ pure tt
      | some p ↦ when (is_payout p.status PayoutStatus.pending) (
          if taken p.provider_account_id && taken p.destination_id
          then elim (provider.initiate_payout p) [
            | reply result ↦ ignore_errors (
                processing_tx p.id result.provider_payout_id result.provider_fee_kobo
                >> apply_state p result)
            | refused ↦ fail_payout p.id >>= λ _. pure tt
            | unavailable ↦ pure tt
          ]
          else fail_payout p.id >>= λ _. pure tt)
    ]

  -- Reconciliation: resolve a processing withdrawal from the provider's own record.
  unfoldable pub refresh_payout : ℕ → Action (Unit {0})
  refresh_payout id = do
    found ← gets (λ db. find_payout id db.payouts)
    elim found [
      | none ↦ pure tt
      | some p ↦
          when
            (is_payout p.status PayoutStatus.processing
              && taken p.provider_payout_id
              && taken p.provider_account_id)
            (elim (provider.get_payout p) [
              | reply result ↦ apply_state p result
              | refused ↦ raise provider_refused
              | unavailable ↦ raise provider_unavailable
            ])
    ]
