-- ===== src/Withdrawal/Effects.antt =====
-- What each transaction of Withdrawal.Payouts does to the payouts and the ledger, step by step.
use duevy_be.Base.{
  ℕ, ◌≤◌, ◌<◌, ◌≡◌, ◌⊎◌, refl, ◌∙◌, true, false, ◌==◌, not, keep, Option, none, some, ◌∷◌,
  Bool-cases, Option-cases, inl, inr, arith,
}
use duevy_be.Base.Results.{ok, err, plain_error}
use duevy_be.Money.{max_safe_integer}
use duevy_be.StateMachine.{PayoutStatus, can_transition_payout, assert_payout_transition, is_payout}
use duevy_be.Store.{Db, Payout, PayoutOtp, LedgerEntry}
use duevy_be.Ledger.{has_conflict, append_ledger_entry, same_direction, expected_direction}
use duevy_be.Withdrawal.Payouts.{
  find_payout, find_reference, update_payout, append, restore_balance, lock_payout, processing_tx,
  complete_tx, fail_tx, cancel_tx, failed_status, or_keep,
}
use duevy_be.Withdrawal.Invariant.{IsAccounted, IsConsistent, is_closed_unpaid, has_conflict-payout}
use duevy_be.Withdrawal.Preserve.{updated, reversal_of}

-- An entry that passes the guards and collides with none is inserted.
pub append_new :
    (e : LedgerEntry) (db : Db)
    → 0 < e.amount_kobo
    → e.amount_kobo ≤ max_safe_integer
    → same_direction (expected_direction e.entry_type) e.direction ≡ true
    → has_conflict e db.ledger ≡ false
    → append e db ≡ (ok tt, record db { ledger = e ∷ db.ledger })
unfolding append append_ledger_entry
append_new e db p q d c = ground arith

-- Giving back a payout that was not given back yet.
restore_balance_lem :
    (p : Payout) (db : Db)
    → IsAccounted p db.ledger
    → is_closed_unpaid p.status ≡ false
    → restore_balance p db ≡ (ok tt, record db { ledger = reversal_of p ∷ db.ledger })
unfolding restore_balance
restore_balance_lem p db a alive =
    append_new (reversal_of p) db (omega (arith, a.adds_up, a.sends)) a.safe refl
      (has_conflict-payout (reversal_of p) p.id db.ledger refl refl ∙ a.reversal ∙ alive)

pub lock_payout_lem :
    (id : ℕ) (p : Payout) (db : Db)
    → find_payout id db.payouts ≡ some p
    → lock_payout id db ≡ (ok p, db)
unfolding lock_payout
lock_payout_lem id p db h = rw h

pub lock_payout-none :
    (id : ℕ) (db : Db)
    → find_payout id db.payouts ≡ none
    → lock_payout id db ≡ (err plain_error, db)
unfolding lock_payout
lock_payout-none id db h = rw h

pub update_payout_lem :
    (id : ℕ) (f : Payout → Payout) (db : Db)
    → update_payout id f db ≡ (ok tt, record db { payouts = updated id f db.payouts })
unfolding update_payout
update_payout_lem id f db = refl

open_of_fails :
    (s : PayoutStatus)
    → can_transition_payout s (failed_status s) ≡ true
    → is_closed_unpaid s ≡ false
unfolding can_transition_payout
open_of_fails s h = ground arith

abbrev pub failed_row : Payout → Payout → Payout
failed_row p r = record r { status = failed_status p.status; active_space_id = none }

pub fail_tx_lem :
    (id : ℕ) (db : Db)
    → IsConsistent db.payouts db.ledger
    → (p : Payout) → find_payout id db.payouts ≡ some p
    → can_transition_payout p.status (failed_status p.status) ≡ true
    → fail_tx id db ≡ (
      ok (some p),
      record db {
        payouts = updated p.id (failed_row p) db.payouts;
        ledger = reversal_of p ∷ db.ledger;
      },
    )
unfolding fail_tx
fail_tx_lem id db c p found can =
    let a = c.accounted id p found in
    let alive : is_closed_unpaid p.status ≡ false = open_of_fails p.status can in
    ground (
      arith,
      lock_payout_lem id p db found,
      update_payout_lem p.id (failed_row p) db,
      restore_balance_lem p (record db { payouts = updated p.id (failed_row p) db.payouts }) a
          alive,
    )

-- Nothing to fail: no such payout, or one that has ended.
pub fail_tx-unchanged :
    (id : ℕ) (db : Db)
    → (find_payout id db.payouts ≡ none)
      ⊎ ((p : Payout) × (find_payout id db.payouts ≡ some p)
          × (can_transition_payout p.status (failed_status p.status) ≡ false))
    → (fail_tx id db).1 ≡ db
unfolding fail_tx
fail_tx-unchanged id db (inl gone) = ground (arith, lock_payout-none id db gone)
fail_tx-unchanged id db (inr (p, found, no_way)) = ground (arith, lock_payout_lem id p db found)

abbrev pub cancelled_row : Payout → Payout
cancelled_row r = record r {
  status = PayoutStatus.cancelled;
  active_space_id = none;
  approval_expires_at = none;
}

open_of_cancels :
    (s : PayoutStatus)
    → can_transition_payout s PayoutStatus.cancelled ≡ true
    → is_closed_unpaid s ≡ false
unfolding can_transition_payout
open_of_cancels s h = ground arith

pub cancel_tx_lem :
    (id : ℕ) (db : Db)
    → IsConsistent db.payouts db.ledger
    → (p : Payout) → find_payout id db.payouts ≡ some p
    → can_transition_payout p.status PayoutStatus.cancelled ≡ true
    → cancel_tx id db ≡ (
      ok true,
      record db {
        payouts = updated p.id cancelled_row db.payouts;
        ledger = reversal_of p ∷ db.ledger;
        otps = keep (λ (o : PayoutOtp). not (o.payout_id == p.id)) db.otps;
      },
    )
unfolding cancel_tx
cancel_tx_lem id db c p found can =
    let a = c.accounted id p found in
    let alive : is_closed_unpaid p.status ≡ false = open_of_cancels p.status can in
    ground (
      arith,
      lock_payout_lem id p db found,
      update_payout_lem p.id cancelled_row db,
      restore_balance_lem p (record db { payouts = updated p.id cancelled_row db.payouts }) a alive,
    )

pub cancel_tx-unchanged :
    (id : ℕ) (db : Db)
    → (find_payout id db.payouts ≡ none)
      ⊎ ((p : Payout) × (find_payout id db.payouts ≡ some p)
          × (can_transition_payout p.status PayoutStatus.cancelled ≡ false))
    → (cancel_tx id db).1 ≡ db
unfolding cancel_tx
cancel_tx-unchanged id db (inl gone) = ground (arith, lock_payout-none id db gone)
cancel_tx-unchanged id db (inr (p, found, no_way)) = ground (arith, lock_payout_lem id p db found)

abbrev pub processing_row : Option ℕ → Option ℕ → Payout → Payout
processing_row provider_id fee r = record r {
  status = PayoutStatus.processing;
  provider_payout_id = provider_id;
  provider_fee_kobo = fee;
}

-- A dispatched payout moves on only from `pending`.
pub processing_tx-cases :
    (id : ℕ) (provider_id fee : Option ℕ) (db : Db)
    → ((processing_tx id provider_id fee db).1 ≡ db)
      ⊎ ((p : Payout) × (find_payout id db.payouts ≡ some p)
          × (p.status ≡ PayoutStatus.pending)
          × ((processing_tx id provider_id fee db).1
              ≡ record db { payouts = updated p.id (processing_row provider_id fee) db.payouts }))
unfolding processing_tx assert_payout_transition can_transition_payout
processing_tx-cases id provider_id fee db = elim (Option-cases (find_payout id db.payouts)) [
  | inl gone ↦ inl (ground (arith, lock_payout-none id db gone))
  | inr (p, found) ↦ elim (Bool-cases (is_payout p.status PayoutStatus.pending)) [
    | inr other ↦ inl (ground (arith, lock_payout_lem id p db found))
    | inl waits ↦ inr (
      p,
      found,
      ground arith,
      ground (
        arith,
        lock_payout_lem id p db found,
        update_payout_lem p.id (processing_row provider_id fee) db,
      ),
    )
  ]
]

abbrev pub success_row : Option ℕ → Payout → Payout
success_row fee r = record r {
  status = PayoutStatus.success;
  active_space_id = none;
  provider_fee_kobo = or_keep fee r.provider_fee_kobo;
}

-- A payout completes only from where the state machine lets it.
pub complete_tx-cases :
    (reference : ℕ) (fee : Option ℕ) (db : Db)
    → ((complete_tx reference fee db).1 ≡ db)
      ⊎ ((id : ℕ) × (p : Payout) × (find_payout id db.payouts ≡ some p)
          × (can_transition_payout p.status PayoutStatus.success ≡ true)
          × (complete_tx reference fee db ≡ (
            ok (some p.id),
            record db { payouts = updated p.id (success_row fee) db.payouts },
          )))
unfolding complete_tx
complete_tx-cases reference fee db = elim (Option-cases (find_reference reference db.payouts)) [
  | inl unknown ↦ inl (ground arith)
  | inr (f, by_reference) ↦ elim (Option-cases (find_payout f.id db.payouts)) [
    | inl gone ↦ inl (ground (arith, lock_payout-none f.id db gone))
    | inr (p, found) ↦ elim (Bool-cases (can_transition_payout p.status PayoutStatus.success)) [
      | inr no_way ↦ inl (ground (arith, lock_payout_lem f.id p db found))
      | inl can ↦ inr (
        f.id,
        p,
        found,
        can,
        ground
            (arith, lock_payout_lem f.id p db found, update_payout_lem p.id (success_row fee) db),
      )
    ]
  ]
]
