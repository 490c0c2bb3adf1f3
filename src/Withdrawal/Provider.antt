-- ===== src/Withdrawal/Provider.antt =====
-- The invariant across the provider's answers: `dispatchPayout`, `completePayout`, `failPayout` and
-- `refreshPayout` of src/services/withdrawal.service.ts.
use duevy_be.Base.{ℕ, true, false, ◌&&◌, Option}
use duevy_be.Base.Results.{provider_refused, provider_unavailable}
use duevy_be.Base.Stateful.Keeps.{
  Keeps, pure-Keeps, raise-Keeps, ignore_errors-Keeps, if-Keeps, bind-Keeps, gets-Keeps, when-Keeps,
  option-Keeps,
}
use duevy_be.StateMachine.{PayoutStatus, is_payout}
use duevy_be.Store.{Db, Payout}
use duevy_be.Store.Action.{Action}
use duevy_be.Withdrawal.Payouts.{
  find_payout, find_reference, processing_tx, complete_tx, fail_tx, fee_settled_tx, taken,
}
use duevy_be.Withdrawal.Invariant.{IsConsistent}
use duevy_be.Withdrawal.Moves.{
  completed-IsConsistent, failed-IsConsistent, dispatched-IsConsistent, settled-IsConsistent,
}
use duevy_be.Withdrawal.Dispatch.{
  PayoutProvider, PayoutResult, PayoutState, Reply, reply, refused, unavailable, fee_settlement,
  is_zero, settles, settle_withdrawal_fee, complete_payout, fail_payout, fail_payout_by_reference,
  apply_state, dispatch_payout, refresh_payout,
}

-- A service function that keeps the invariant.
abbrev pub IsSafe : {A : Type 0} → Action A → Type 0
IsSafe m = Keeps (λ (db : Db). IsConsistent db.payouts db.ledger) m

reply-Keeps :
    {A B : Type 0} {I : Db → Type 0} (r : Reply A) (f : A → Action B) (k l : Action B)
    → ((a : A) → Keeps I (f a))
    → Keeps I k
    → Keeps I l
    → Keeps I (elim r [ reply a ↦ f a | refused ↦ k | unavailable ↦ l ])
reply-Keeps (reply a) f k l sf sk sl = sf a
reply-Keeps refused f k l sf sk sl = sk
reply-Keeps unavailable f k l sf sk sl = sl

state-IsSafe :
    {B : Type 0} (s : PayoutState) (a b c d : Action B)
    → IsSafe a
    → IsSafe b
    → IsSafe c
    → IsSafe d
    → IsSafe (elim s [
      | PayoutState.pending ↦ a
      | PayoutState.processing ↦ b
      | PayoutState.succeeded ↦ c
      | PayoutState.failed ↦ d
    ])
state-IsSafe PayoutState.pending a b c d sa sb sc sd = sa
state-IsSafe PayoutState.processing a b c d sa sb sc sd = sb
state-IsSafe PayoutState.succeeded a b c d sa sb sc sd = sc
state-IsSafe PayoutState.failed a b c d sa sb sc sd = sd

module _ (provider : PayoutProvider) (now : ℕ) where
  settle_row : (p : Payout) → IsSafe (fee_settled_tx p.id now (fee_settlement p))
  settle_row p = record { keeps = settled-IsConsistent p.id now (fee_settlement p) }

  -- Sweeping a fee keeps what recording the sweep keeps.
  pub settle_withdrawal_fee-Keeps :
      (I : Db → Type 0)
      → ((p : Payout) → Keeps I (fee_settled_tx p.id now (fee_settlement p)))
      → (id : ℕ) → Keeps I (settle_withdrawal_fee provider now id)
  unfolding settle_withdrawal_fee
  settle_withdrawal_fee-Keeps I row id =
      gets-Keeps (λ (db : Db). find_payout id db.payouts) _
        λ found. option-Keeps found _ _ (pure-Keeps tt) λ p. when-Keeps (settles p) _ (
          if-Keeps (is_zero (fee_settlement p)) _ _ (row p) (
            reply-Keeps (provider.settle_fee p.reference (fee_settlement p)) _ _ _ (λ _. row p)
              (raise-Keeps provider_refused) (raise-Keeps provider_unavailable)))

  pub settle_withdrawal_fee-IsSafe : (id : ℕ) → IsSafe (settle_withdrawal_fee provider now id)
  settle_withdrawal_fee-IsSafe =
      settle_withdrawal_fee-Keeps (λ (db : Db). IsConsistent db.payouts db.ledger) settle_row

  pub complete_payout-IsSafe :
      (reference : ℕ) (fee : Option ℕ) → IsSafe (complete_payout provider now reference fee)
  unfolding complete_payout
  complete_payout-IsSafe reference fee =
      bind-Keeps (complete_tx reference fee) _
        (record { keeps = completed-IsConsistent reference fee })
        λ done. option-Keeps done _ _ (pure-Keeps false) λ id.
          bind-Keeps _ _ (ignore_errors-Keeps _ (settle_withdrawal_fee-IsSafe id))
            λ _. pure-Keeps true

  pub fail_payout-IsSafe : (id : ℕ) → IsSafe (fail_payout provider now id)
  unfolding fail_payout
  fail_payout-IsSafe id =
      bind-Keeps (fail_tx id) _ (record { keeps = failed-IsConsistent id })
        λ done. pure-Keeps (taken done)

  pub fail_payout_by_reference-IsSafe :
      (reference : ℕ) → IsSafe (fail_payout_by_reference provider now reference)
  unfolding fail_payout_by_reference
  fail_payout_by_reference-IsSafe reference =
      gets-Keeps (λ (db : Db). find_reference reference db.payouts) _
        λ found. option-Keeps found _ _ (pure-Keeps false) λ p. fail_payout-IsSafe p.id

  apply_state-IsSafe :
      (p : Payout) (result : PayoutResult) → IsSafe (apply_state provider now p result)
  unfolding apply_state
  apply_state-IsSafe p result =
      state-IsSafe result.state _ _ _ _ (pure-Keeps tt) (pure-Keeps tt)
        (bind-Keeps (complete_payout provider now p.reference result.provider_fee_kobo) _
          (complete_payout-IsSafe p.reference result.provider_fee_kobo) (λ _. pure-Keeps tt))
        (bind-Keeps (fail_payout provider now p.id) _ (fail_payout-IsSafe p.id)
          (λ _. pure-Keeps tt))

  pub dispatch_payout-IsSafe : (id : ℕ) → IsSafe (dispatch_payout provider now id)
  unfolding dispatch_payout
  dispatch_payout-IsSafe id =
      gets-Keeps (λ (db : Db). find_payout id db.payouts) _
        λ found. option-Keeps found _ _ (pure-Keeps tt) λ p.
          when-Keeps (is_payout p.status PayoutStatus.pending) _ (
            if-Keeps (taken p.provider_account_id && taken p.destination_id) _ _
              (reply-Keeps (provider.initiate_payout p) _ _ _
                (λ result. ignore_errors-Keeps _ (
                  bind-Keeps (processing_tx p.id result.provider_payout_id result.provider_fee_kobo)
                    _
                    (record {
                      keeps =
                          dispatched-IsConsistent p.id result.provider_payout_id
                            result.provider_fee_kobo;
                    })
                    (λ _. apply_state-IsSafe p result)))
                (bind-Keeps (fail_payout provider now p.id) _ (fail_payout-IsSafe p.id)
                  (λ _. pure-Keeps tt))
                (pure-Keeps tt))
              (bind-Keeps (fail_payout provider now p.id) _ (fail_payout-IsSafe p.id)
                (λ _. pure-Keeps tt)))

  pub refresh_payout-IsSafe : (id : ℕ) → IsSafe (refresh_payout provider now id)
  unfolding refresh_payout
  refresh_payout-IsSafe id =
      gets-Keeps (λ (db : Db). find_payout id db.payouts) _
        λ found. option-Keeps found _ _ (pure-Keeps tt) λ p.
          when-Keeps
            (is_payout p.status PayoutStatus.processing
              && taken p.provider_payout_id
              && taken p.provider_account_id)
            _
            (reply-Keeps (provider.get_payout p) _ _ _ (apply_state-IsSafe p)
              (raise-Keeps provider_refused) (raise-Keeps provider_unavailable))

-- Whatever the provider answers, sending a payout leaves consistent payouts and ledger consistent.
pub dispatch_payout-IsConsistent :
    (provider : PayoutProvider) (now id : ℕ) (db : Db)
    → IsConsistent db.payouts db.ledger
    → let after = (dispatch_payout provider now id db).1 in IsConsistent after.payouts after.ledger
dispatch_payout-IsConsistent provider now id db c =
    (dispatch_payout-IsSafe provider now id).keeps db c

-- Whatever the provider answers, following up a payout leaves consistent payouts and ledger
-- consistent.
pub refresh_payout-IsConsistent :
    (provider : PayoutProvider) (now id : ℕ) (db : Db)
    → IsConsistent db.payouts db.ledger
    → let after = (refresh_payout provider now id db).1 in IsConsistent after.payouts after.ledger
refresh_payout-IsConsistent provider now id db c =
    (refresh_payout-IsSafe provider now id).keeps db c
