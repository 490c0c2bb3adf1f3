-- ===== src/Withdrawal/Finishes.antt =====
-- Following up a withdrawal that the bank has decided (`refreshPayout` and `completePayout` of
-- src/services/withdrawal.service.ts).
use duevy_be.Base.{ℕ, ◌≡◌, refl, ◌⊎◌, true, ◌==◌, Option, none, some, Bool-cases, inl, inr, arith}
use duevy_be.Base.Int.{ℤ}
use duevy_be.Base.Table.{find_by-update_by}
use duevy_be.Base.Results.{ok}
use duevy_be.Base.Stateful.Keeps.{Keeps}
use duevy_be.StateMachine.{PayoutStatus, is_payout, can_transition_payout}
use duevy_be.Store.{Db, Payout}
use duevy_be.Withdrawal.Payouts.{
  find_payout, find_reference, complete_tx, fail_tx, fee_settled_tx, failed_status, taken,
}
use duevy_be.Withdrawal.Invariant.{IsConsistent}
use duevy_be.Withdrawal.Preserve.{updated}
use duevy_be.Withdrawal.Effects.{
  success_row, failed_row, fail_tx_lem, lock_payout_lem, update_payout_lem,
}
use duevy_be.Withdrawal.Moves.{settled_row}
use duevy_be.Withdrawal.Guarantees.{found_updated}
use duevy_be.Withdrawal.Dispatch.{
  PayoutProvider, PayoutResult, PayoutState, reply, fee_settlement, settle_withdrawal_fee,
  complete_payout, fail_payout, apply_state, refresh_payout,
}
use duevy_be.Withdrawal.Provider.{settle_withdrawal_fee-Keeps}

abbrev pub HasStatus : ℕ → PayoutStatus → Db → Type 0
HasStatus id s db = (q : Payout) × (find_payout id db.payouts ≡ some q) × (q.status ≡ s)

-- The status that the provider's verdict comes to.
abbrev pub verdict : PayoutState → Option PayoutStatus
verdict PayoutState.pending = none
verdict PayoutState.processing = none
verdict PayoutState.succeeded = some PayoutStatus.success
verdict PayoutState.failed = some PayoutStatus.failed

-- Recording that a fee was swept leaves every status as it is.
settled-HasStatus :
    (id j now : ℕ) (amount : ℤ) (s : PayoutStatus)
    → Keeps (HasStatus id s) (fee_settled_tx j now amount)
unfolding fee_settled_tx find_payout
settled-HasStatus id j now amount s = record {
  keeps = λ db (q, there, is).
      let law =
        find_by-update_by (λ (r : Payout). r.id) id j (settled_row now amount) db.payouts
          (λ r. refl) in
      rw (update_payout_lem j (settled_row now amount) db) (elim (Bool-cases (j == id)) [
        | inl mine ↦ (settled_row now amount q, ground (arith, law, there), is)
        | inr other ↦ (q, ground (arith, law, there), is)
      ]);
}

complete_tx_lem :
    (fee : Option ℕ) (p : Payout) (db : Db)
    → find_reference p.reference db.payouts ≡ some p
    → find_payout p.id db.payouts ≡ some p
    → can_transition_payout p.status PayoutStatus.success ≡ true
    → complete_tx p.reference fee db
      ≡ (ok (some p.id), record db { payouts = updated p.id (success_row fee) db.payouts })
unfolding complete_tx
complete_tx_lem fee p db by_reference found can =
    ground (arith, lock_payout_lem p.id p db found, update_payout_lem p.id (success_row fee) db)

can_succeed :
    (s : PayoutStatus)
    → is_payout s PayoutStatus.processing ≡ true
    → can_transition_payout s PayoutStatus.success ≡ true
unfolding can_transition_payout
can_succeed s h = ground arith

can_fail :
    (s : PayoutStatus)
    → is_payout s PayoutStatus.processing ≡ true
    → (can_transition_payout s (failed_status s) ≡ true) × (failed_status s ≡ PayoutStatus.failed)
unfolding can_transition_payout
can_fail s h = (ground arith, ground arith)

decided :
    (state : PayoutState) (s : PayoutStatus)
    → verdict state ≡ some s
    → ((state ≡ PayoutState.succeeded) × (s ≡ PayoutStatus.success))
      ⊎ ((state ≡ PayoutState.failed) × (s ≡ PayoutStatus.failed))
decided state s v = ground arith

module _ (provider : PayoutProvider) (now : ℕ) where
  complete_payout-after :
      (reference id : ℕ) (fee : Option ℕ) (db after : Db)
      → complete_tx reference fee db ≡ (ok (some id), after)
      → complete_payout provider now reference fee db
        ≡ (ok true, (settle_withdrawal_fee provider now id after).1)
  unfolding complete_payout
  complete_payout-after reference id fee db after e = ground (arith, e)

  fail_payout-after :
      (id : ℕ) (p : Payout) (db after : Db)
      → fail_tx id db ≡ (ok (some p), after)
      → fail_payout provider now id db ≡ (ok true, after)
  unfolding fail_payout
  fail_payout-after id p db after e = ground (arith, e)

  -- A verdict that is applied leaves what the transaction of its payout leaves.
  apply_state-after :
      (p : Payout) (result : PayoutResult) (db after : Db)
      → ((result.state ≡ PayoutState.succeeded)
          × (complete_payout provider now p.reference result.provider_fee_kobo db
              ≡ (ok true, after)))
        ⊎ ((result.state ≡ PayoutState.failed)
            × (fail_payout provider now p.id db ≡ (ok true, after)))
      → apply_state provider now p result db ≡ (ok tt, after)
  unfolding apply_state
  apply_state-after p result db after (inl (e, done)) = ground (arith, e, done)
  apply_state-after p result db after (inr (e, done)) = ground (arith, e, done)

  refresh_payout-after :
      (p : Payout) (result : PayoutResult) (db after : Db)
      → find_payout p.id db.payouts ≡ some p
      → is_payout p.status PayoutStatus.processing ≡ true
      → taken p.provider_payout_id ≡ true
      → taken p.provider_account_id ≡ true
      → provider.get_payout p ≡ reply result
      → apply_state provider now p result db ≡ (ok tt, after)
      → refresh_payout provider now p.id db ≡ (ok tt, after)
  unfolding refresh_payout
  refresh_payout-after p result db after found sent known account answer done =
      ground (arith, found, answer, done)

  swept-HasStatus :
      (fee : Option ℕ) (p : Payout) (db : Db)
      → find_payout p.id db.payouts ≡ some p
      → HasStatus p.id PayoutStatus.success
          (settle_withdrawal_fee provider now p.id
            (record db { payouts = updated p.id (success_row fee) db.payouts })).1
  swept-HasStatus fee p db found =
      (settle_withdrawal_fee-Keeps provider now (HasStatus p.id PayoutStatus.success)
          (λ q. settled-HasStatus p.id q.id now (fee_settlement q) PayoutStatus.success) p.id).keeps
        (record db { payouts = updated p.id (success_row fee) db.payouts })
        (
          success_row fee p,
          found_updated p.id (success_row fee) db.payouts p (λ r. refl) found,
          refl,
        )

-- In a consistent database, let a payout be with the provider, under its own account and the id that
-- the provider gave it, with a reference that finds it. When the provider's verdict on it is in, one
-- follow-up answers, and then the payout has the status of that verdict: succeeded or failed.
pub refresh_payout_finishes :
    (provider : PayoutProvider) (now : ℕ) (db : Db)
    → IsConsistent db.payouts db.ledger
    → (p : Payout) → find_payout p.id db.payouts ≡ some p
    → find_reference p.reference db.payouts ≡ some p
    → is_payout p.status PayoutStatus.processing ≡ true
    → taken p.provider_payout_id ≡ true
    → taken p.provider_account_id ≡ true
    → (result : PayoutResult) → provider.get_payout p ≡ reply result
    → (s : PayoutStatus) → verdict result.state ≡ some s
    → ((refresh_payout provider now p.id db).0 ≡ ok tt)
      × HasStatus p.id s (refresh_payout provider now p.id db).1
refresh_payout_finishes provider now db c p found by_reference sent known account result answer s
      v =
    elim (decided result.state s v) [
      | inl (won, is) ↦
          let after = record db {
            payouts = updated p.id (success_row result.provider_fee_kobo) db.payouts;
          } in
          let done =
            refresh_payout-after provider now p result db _ found sent known account answer (
              apply_state-after provider now p result db _ (
                inl (
                  won,
                  complete_payout-after provider now p.reference p.id result.provider_fee_kobo db
                      after
                      (complete_tx_lem result.provider_fee_kobo p db by_reference found
                        (can_succeed p.status sent)),
                ))) in
          rw (done, is) (refl, swept-HasStatus provider now result.provider_fee_kobo p db found)
      | inr (lost, is) ↦
          let (can, to) = can_fail p.status sent in
          let done =
            refresh_payout-after provider now p result db _ found sent known account answer (
              apply_state-after provider now p result db _ (
                inr (
                  lost,
                  fail_payout-after provider now p.id p db _ (fail_tx_lem p.id db c p found can),
                ))) in
          rw (done, is)
            (
              refl,
              (
                failed_row p p,
                found_updated p.id (failed_row p) db.payouts p (λ r. refl) found,
                to,
              ),
            )
    ]
