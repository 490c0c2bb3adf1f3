-- ===== src/Approval/Signing.antt =====
-- The transaction of `approvePayout` in src/services/withdrawalApproval.service.ts, on every branch.
use duevy_be.Base.{
  ℕ, ◌≡◌, ◌⊎◌, true, mem?, refl, leb, if◌then◌else◌, none, some, List, ◌∷◌, Bool-cases,
  Option-cases, inl, inr, arith,
}
use duevy_be.Base.Results.{ok}
use duevy_be.StateMachine.{PayoutStatus, assert_payout_transition, can_transition_payout}
use duevy_be.Store.{Db, Payout, PayoutApproval, Decision}
use duevy_be.Withdrawal.Payouts.{find_payout, release_tx, update_payout}
use duevy_be.Withdrawal.Preserve.{updated}
use duevy_be.Withdrawal.Effects.{lock_payout_lem, lock_payout-none}
use duevy_be.Approval.{
  approve_tx, create_approval, find_approval, count_approvals, without_otp, is_awaiting,
  required_approvals,
}

abbrev pub released_row : Payout → Payout
released_row r = record r { status = PayoutStatus.pending; approval_expires_at = none }

abbrev pub signature : ℕ → ℕ → PayoutApproval
signature payout user = record {
  payout_id = payout;
  rep_user_id = user;
  decision = Decision.approved;
}

-- The database with the new signature and the spent code.
abbrev pub signed : ℕ → ℕ → Db → Db
signed payout user db =
    without_otp payout user (record db { approvals = signature payout user ∷ db.approvals })

release_tx_lem :
    (id : ℕ) (db : Db)
    → release_tx id db ≡ (ok tt, record db { payouts = updated id released_row db.payouts })
unfolding release_tx assert_payout_transition can_transition_payout update_payout
release_tx_lem id db = refl

-- A signature changes nothing; or it is the signer's first on a waiting withdrawal, and the
-- withdrawal is released exactly if two current signatories have now approved it.
pub approve_tx-cases :
    (payout user : ℕ) (signatories : List ℕ) (db : Db)
    → ((approve_tx payout user signatories db).1 ≡ db)
      ⊎ ((p : Payout) × (find_payout payout db.payouts ≡ some p)
          × (p.status ≡ PayoutStatus.awaiting_approval)
          × (find_approval payout user db.approvals ≡ none)
          × ((approve_tx payout user signatories db).1 ≡ (
              if leb required_approvals
                (count_approvals payout signatories (signature payout user ∷ db.approvals))
              then record (signed payout user db) { payouts = updated p.id released_row db.payouts }
              else signed payout user db)))
unfolding approve_tx create_approval
approve_tx-cases payout user signatories db = elim (Option-cases (find_payout payout db.payouts)) [
  | inl gone ↦ inl (ground (arith, lock_payout-none payout db gone))
  | inr (p, found) ↦ elim (Bool-cases (is_awaiting p)) [
    | inr other ↦ inl (ground (arith, lock_payout_lem payout p db found))
    | inl waits ↦ elim (Option-cases (find_approval payout user db.approvals)) [
      | inr (a, twice) ↦ inl (ground (arith, lock_payout_lem payout p db found))
      | inl first ↦ inr (
        p,
        found,
        ground arith,
        first,
        ground
            (arith, lock_payout_lem payout p db found, release_tx_lem p.id (signed payout user db)),
      )
    ]
  ]
]

-- A row that counts: an approval of the payout by a current signatory.
abbrev pub IsSupport : ℕ → List ℕ → PayoutApproval → Type 0
IsSupport payout signatories a =
    (a.payout_id ≡ payout)
    × (a.decision ≡ Decision.approved)
    × (mem? a.rep_user_id signatories ≡ true)
