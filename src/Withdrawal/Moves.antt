-- ===== src/Withdrawal/Moves.antt =====
-- Each transaction on the payouts and the ledger, across the invariant
-- (src/services/withdrawal.service.ts, and the signatures of src/services/withdrawalApproval.service.ts).
use duevy_be.Base.{
  ℕ, ◌≡◌, ◌⊎◌, refl, Bool, true, false, leb, holds, if◌then◌else◌, Option, none, some, List, [],
  ◌∷◌, Bool-cases, Option-cases, inl, inr, arith, is_some,
}
use duevy_be.Base.Table.{find_by, update_by, find_by-key}
use duevy_be.Base.Int.{ℤ}
use duevy_be.Base.Results.{Result-cases}
use duevy_be.StateMachine.{PayoutStatus, payout_active, can_transition_payout}
use duevy_be.Store.{Db, Payout, LedgerEntry, Direction}
use duevy_be.Ledger.{Ledger, append_ledger_entry, is_credit}
use duevy_be.Ledger.Append.{append_ledger_entry-cases}
use duevy_be.Withdrawal.Payouts.{
  find_payout, processing_tx, complete_tx, fail_tx, cancel_tx, fee_settled_tx, append,
  failed_status,
}
use duevy_be.Withdrawal.Invariant.{IsConsistent, solvent_of_covers, covers_of_solvent}
use duevy_be.Withdrawal.Preserve.{
  updated, KeepsMoney, moved-IsConsistent, restored-IsConsistent, IsAccounted-cons, IsUnused-cons,
  credit_covers,
}
use duevy_be.Withdrawal.Effects.{
  failed_row, cancelled_row, processing_row, success_row, fail_tx_lem, fail_tx-unchanged,
  cancel_tx_lem, cancel_tx-unchanged, processing_tx-cases, complete_tx-cases, update_payout_lem,
}
use duevy_be.Approval.{approve_tx, count_approvals, required_approvals}
use duevy_be.Approval.Signing.{approve_tx-cases, released_row, signature}

abbrev pub is_plain_credit : LedgerEntry → Bool
is_plain_credit e = if is_some e.payout_id then false else is_credit e.direction

-- The updates of the transactions touch no money column.
processing_keeps : (a b : Option ℕ) → KeepsMoney (processing_row a b)
processing_keeps a b = record {
  id = λ r. refl;
  space_id = λ r. refl;
  amount = λ r. refl;
  fee_kobo = λ r. refl;
  net_kobo = λ r. refl;
}

released_keeps : KeepsMoney released_row
released_keeps = record {
  id = λ r. refl;
  space_id = λ r. refl;
  amount = λ r. refl;
  fee_kobo = λ r. refl;
  net_kobo = λ r. refl;
}

success_keeps : (a : Option ℕ) → KeepsMoney (success_row a)
success_keeps a = record {
  id = λ r. refl;
  space_id = λ r. refl;
  amount = λ r. refl;
  fee_kobo = λ r. refl;
  net_kobo = λ r. refl;
}

failed_keeps : (p : Payout) → KeepsMoney (failed_row p)
failed_keeps p = record {
  id = λ r. refl;
  space_id = λ r. refl;
  amount = λ r. refl;
  fee_kobo = λ r. refl;
  net_kobo = λ r. refl;
}

cancelled_keeps : KeepsMoney cancelled_row
cancelled_keeps = record {
  id = λ r. refl;
  space_id = λ r. refl;
  amount = λ r. refl;
  fee_kobo = λ r. refl;
  net_kobo = λ r. refl;
}

-- A row is found under its own id.
pub own_id : (ps : List Payout) (k : ℕ) (p : Payout) → find_payout k ps ≡ some p → p.id ≡ k
unfolding find_payout
own_id ps k p h = find_by-key (λ (r : Payout). r.id) k ps {a = p} h

found_by_own :
    (ps : List Payout) (k : ℕ) (p : Payout)
    → find_payout k ps ≡ some p
    → find_payout p.id ps ≡ some p
found_by_own ps k p h = ground (arith, own_id ps k p h)

pub dispatched-IsConsistent :
    (id : ℕ) (a b : Option ℕ) (db : Db)
    → IsConsistent db.payouts db.ledger
    → let after = (processing_tx id a b db).1 in IsConsistent after.payouts after.ledger
dispatched-IsConsistent id a b db c = elim (processing_tx-cases id a b db) [
  | inl same ↦ rw same c
  | inr (p, found, waits, done) ↦ rw done (
      moved-IsConsistent db.payouts db.ledger (processing_row a b) (processing_keeps a b) p.id p c
        (found_by_own db.payouts id p found) (λ r. inl refl) (ground (arith, waits))
        (unfold payout_active in ground (arith, waits, (c.accounted id p found).active)))
]

pub completed-IsConsistent :
    (reference : ℕ) (fee : Option ℕ) (db : Db)
    → IsConsistent db.payouts db.ledger
    → let after = (complete_tx reference fee db).1 in IsConsistent after.payouts after.ledger
completed-IsConsistent reference fee db c = elim (complete_tx-cases reference fee db) [
  | inl same ↦ rw same c
  | inr (id, p, found, can, done) ↦ rw done (
      moved-IsConsistent db.payouts db.ledger (success_row fee) (success_keeps fee) p.id p c
        (found_by_own db.payouts id p found) (λ r. inr refl)
        (unfold can_transition_payout in ground (arith, can)) (unfold payout_active in refl))
]

pub approved-IsConsistent :
    (payout user : ℕ) (signatories : List ℕ) (db : Db)
    → IsConsistent db.payouts db.ledger
    → let after = (approve_tx payout user signatories db).1 in
      IsConsistent after.payouts after.ledger
approved-IsConsistent payout user signatories db c =
    elim (approve_tx-cases payout user signatories db) [
      | inl same ↦ rw same c
      | inr (p, found, waits, _, done) ↦
          let freed =
            moved-IsConsistent db.payouts db.ledger released_row released_keeps p.id p c
              (found_by_own db.payouts payout p found) (λ r. inl refl) (ground (arith, waits))
              (unfold payout_active in
                ground (arith, waits, (c.accounted payout p found).active)) in
          elim (Bool-cases (
            leb required_approvals
              (count_approvals payout signatories (signature payout user ∷ db.approvals)))) [
                | inl enough ↦ rw (done, enough) freed
                | inr short ↦ rw (done, short) c
              ]
    ]

pub failed-IsConsistent :
    (id : ℕ) (db : Db)
    → IsConsistent db.payouts db.ledger
    → let after = (fail_tx id db).1 in IsConsistent after.payouts after.ledger
failed-IsConsistent id db c = elim (Option-cases (find_payout id db.payouts)) [
  | inl gone ↦ rw (fail_tx-unchanged id db (inl gone)) c
  | inr (p, found) ↦ elim (Bool-cases (can_transition_payout p.status (failed_status p.status))) [
    | inr no_way ↦ rw (fail_tx-unchanged id db (inr (p, found, no_way))) c
    | inl can ↦ rw (fail_tx_lem id db c p found can) (
        restored-IsConsistent db.payouts db.ledger (failed_row p) (failed_keeps p) p.id p c
          (found_by_own db.payouts id p found) (λ r. refl)
          (unfold can_transition_payout in ground (arith, can)) (ground arith)
          (unfold payout_active in ground arith))
  ]
]

pub cancelled-IsConsistent :
    (id : ℕ) (db : Db)
    → IsConsistent db.payouts db.ledger
    → let after = (cancel_tx id db).1 in IsConsistent after.payouts after.ledger
cancelled-IsConsistent id db c = elim (Option-cases (find_payout id db.payouts)) [
  | inl gone ↦ rw (cancel_tx-unchanged id db (inl gone)) c
  | inr (p, found) ↦ elim (Bool-cases (can_transition_payout p.status PayoutStatus.cancelled)) [
    | inr no_way ↦ rw (cancel_tx-unchanged id db (inr (p, found, no_way))) c
    | inl can ↦ rw (cancel_tx_lem id db c p found can) (
        restored-IsConsistent db.payouts db.ledger cancelled_row cancelled_keeps p.id p c
          (found_by_own db.payouts id p found) (λ r. refl)
          (unfold can_transition_payout in ground (arith, can)) refl (unfold payout_active in refl))
  ]
]

abbrev pub settled_row : ℕ → ℤ → Payout → Payout
settled_row now amount r = record r { fee_settled_at = some now; fee_settlement_kobo = some amount }

settled_keeps : (now : ℕ) (amount : ℤ) → KeepsMoney (settled_row now amount)
settled_keeps now amount = record {
  id = λ r. refl;
  space_id = λ r. refl;
  amount = λ r. refl;
  fee_kobo = λ r. refl;
  net_kobo = λ r. refl;
}

-- An update of a row that is not there.
pub updated-none :
    (k : ℕ) (f : Payout → Payout) (ps : List Payout) → find_payout k ps ≡ none → updated k f ps ≡ ps
unfolding find_payout find_by update_by
updated-none k f [] h = refl
updated-none k f (p ∷ ps) h = ground (arith, updated-none k f ps)

pub settled-IsConsistent :
    (id now : ℕ) (amount : ℤ) (db : Db)
    → IsConsistent db.payouts db.ledger
    → let after = (fee_settled_tx id now amount db).1 in IsConsistent after.payouts after.ledger
unfolding fee_settled_tx
settled-IsConsistent id now amount db c =
    rw (update_payout_lem id (settled_row now amount) db)
      (elim (Option-cases (find_payout id db.payouts)) [
        | inl gone ↦ rw (updated-none id (settled_row now amount) db.payouts gone) c
        | inr (p, found) ↦
            moved-IsConsistent db.payouts db.ledger (settled_row now amount)
              (settled_keeps now amount) id p c found (λ r. inl refl) refl
              (c.accounted id p found).active
      ])

-- A credit of no payout.
credit_apart :
    (e : LedgerEntry) (l : Ledger) (ps : List Payout)
    → IsConsistent ps l
    → is_plain_credit e ≡ true
    → IsConsistent ps (e ∷ l)
credit_apart e l ps c h =
    let apart : (id : ℕ) → holds id e.payout_id ≡ false = λ id. ground arith in
    let credit : e.direction ≡ Direction.credit = ground arith in
    record {
      accounted = λ id p there. IsAccounted-cons p e l (c.accounted id p there) (apart p.id);
      unused = λ id there. IsUnused-cons id e l (c.unused id there) (apart id);
      one_active = c.one_active;
      solvent = λ s.
          solvent_of_covers s (e ∷ l)
            (credit_covers s e l credit (covers_of_solvent s l (c.solvent s)));
    }

pub append-cases :
    (e : LedgerEntry) (db : Db)
    → ((append e db).1 ≡ db) ⊎ ((append e db).1 ≡ record db { ledger = e ∷ db.ledger })
unfolding append
append-cases e db = elim (Result-cases (append_ledger_entry e db.ledger)) [
  | inr (x, refused) ↦ inl (ground arith)
  | inl ((b, l'), ok_there) ↦ elim (append_ledger_entry-cases e db.ledger ok_there).2 [
    | inl (_, _, same) ↦ inl (ground arith)
    | inr (_, _, new) ↦ inr (ground arith)
  ]
]

pub credited-IsConsistent :
    (e : LedgerEntry) (db : Db)
    → IsConsistent db.payouts db.ledger
    → is_plain_credit e ≡ true
    → let after = (append e db).1 in IsConsistent after.payouts after.ledger
credited-IsConsistent e db c h = elim (append-cases e db) [
  | inl same ↦ rw same c
  | inr new ↦ rw new (credit_apart e db.ledger db.payouts c h)
]
