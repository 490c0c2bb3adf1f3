-- ===== src/Reconciliation/Sweep.antt =====
-- A sweep over the withdrawals keeps payouts and ledger consistent (`reconcilePayouts` of
-- src/jobs/reconciliation.ts).
use duevy_be.Base.{ℕ, List, [], ◌∷◌}
use duevy_be.Base.Stateful.Keeps.{pure-Keeps, ignore_errors-Keeps, then-Keeps, gets-Keeps}
use duevy_be.Store.{Db, Payout}
use duevy_be.Store.Action.{Action}
use duevy_be.Withdrawal.Payouts.{cancel_tx}
use duevy_be.Withdrawal.Invariant.{IsConsistent}
use duevy_be.Withdrawal.Moves.{cancelled-IsConsistent}
use duevy_be.Withdrawal.Dispatch.{
  PayoutProvider, dispatch_payout, refresh_payout, settle_withdrawal_fee,
}
use duevy_be.Withdrawal.Provider.{
  IsSafe, dispatch_payout-IsSafe, refresh_payout-IsSafe, settle_withdrawal_fee-IsSafe,
}
use duevy_be.Approval.{expire_stale_approvals, cancel_each, stale_approvals}
use duevy_be.Reconciliation.{
  PayoutTimes, each_caught, undispatched, quiet_processing, unsettled, reconcile_payouts,
}

each_caught-IsSafe :
    {A : Type 0} (f : A → Action (Unit {0})) (xs : List A)
    → ((x : A) → IsSafe (f x))
    → IsSafe (each_caught f xs)
unfolding each_caught
each_caught-IsSafe f [] safe = pure-Keeps tt
each_caught-IsSafe f (x ∷ xs) safe =
    then-Keeps _ _ (ignore_errors-Keeps (f x) (safe x)) (each_caught-IsSafe f xs safe)

cancel_each-IsSafe : (ps : List Payout) → IsSafe (cancel_each ps)
unfolding cancel_each
cancel_each-IsSafe [] = pure-Keeps tt
cancel_each-IsSafe (p ∷ ps) =
    then-Keeps _ _
      (ignore_errors-Keeps (cancel_tx p.id) (record { keeps = cancelled-IsConsistent p.id }))
      (cancel_each-IsSafe ps)

expire_stale_approvals-IsSafe : (now : ℕ) → IsSafe (expire_stale_approvals now)
unfolding expire_stale_approvals
expire_stale_approvals-IsSafe now = gets-Keeps (stale_approvals now) _ cancel_each-IsSafe

reconcile_payouts-IsSafe :
    (times : PayoutTimes) (now : ℕ) (provider : PayoutProvider)
    → IsSafe (reconcile_payouts times now provider)
unfolding reconcile_payouts
reconcile_payouts-IsSafe times now provider = gets-Keeps (undispatched times now) _ λ first.
    then-Keeps _ _
      (each_caught-IsSafe (λ (p : Payout). dispatch_payout provider now p.id) first
        λ p. dispatch_payout-IsSafe provider now p.id)
      (gets-Keeps (quiet_processing times now) _ λ second.
        then-Keeps _ _
          (each_caught-IsSafe (λ (p : Payout). refresh_payout provider now p.id) second
            λ p. refresh_payout-IsSafe provider now p.id)
          (gets-Keeps (unsettled times now) _ λ third.
            then-Keeps _ _
              (each_caught-IsSafe (λ (p : Payout). settle_withdrawal_fee provider now p.id) third
                λ p. settle_withdrawal_fee-IsSafe provider now p.id)
              (expire_stale_approvals-IsSafe now)))

-- Whatever the provider answers to each of its questions, a sweep over the withdrawals (resending,
-- following up, settling fees, cancelling those not approved in time) leaves consistent payouts and
-- ledger consistent.
pub reconcile_payouts-IsConsistent :
    (times : PayoutTimes) (now : ℕ) (provider : PayoutProvider) (db : Db)
    → IsConsistent db.payouts db.ledger
    → let after = (reconcile_payouts times now provider db).1 in
      IsConsistent after.payouts after.ledger
reconcile_payouts-IsConsistent times now provider db c =
    (reconcile_payouts-IsSafe times now provider).keeps db c
