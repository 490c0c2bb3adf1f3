-- ===== src/Withdrawal/History.antt =====
-- The status of one payout along any order of the transactions of src/services/withdrawal.service.ts
-- and src/services/withdrawalApproval.service.ts.
use duevy_be.Base.{
  ℕ, suc, ◌+◌, ◌≤◌, ◌≡◌, ◌≢◌, ◌⊎◌, refl, Bool, true, false, not, ◌==◌, ==→eq, leb, if◌then◌else◌,
  Option, none, some, List, [], ◌∷◌, Bool-cases, Option-cases, inl, inr, arith,
}
use duevy_be.Base.Int.{ℤ}
use duevy_be.Base.Table.{find_by-update_by}
use duevy_be.StateMachine.{PayoutStatus, is_payout, can_transition_payout}
use duevy_be.StateMachine.Progress.{payout_rank, payout_forward}
use duevy_be.Store.{Db, Payout, LedgerEntry}
use duevy_be.Withdrawal.Payouts.{
  find_payout, PayoutRequest, append, create_tx, withdraw_tx, processing_tx, complete_tx, fail_tx,
  cancel_tx, fee_settled_tx, failed_status, new_payout,
}
use duevy_be.Withdrawal.Invariant.{IsConsistent}
use duevy_be.Withdrawal.Preserve.{updated}
use duevy_be.Withdrawal.Effects.{
  fail_tx_lem, fail_tx-unchanged, failed_row, cancel_tx_lem, cancel_tx-unchanged, cancelled_row,
  processing_tx-cases, processing_row, complete_tx-cases, success_row, update_payout_lem,
}
use duevy_be.Withdrawal.Create.{
  create_tx-cases, withdraw_tx-cases, new_payout-IsNew, IsNew, find_payout-cons,
}
use duevy_be.Withdrawal.Moves.{own_id, append-cases, is_plain_credit, settled_row, updated-none}
use duevy_be.Withdrawal.Runs.{
  Move, withdraw, approve, dispatched, completed, failed, cancelled, fee_settled, credited, apply,
  run, apply-IsConsistent,
}
use duevy_be.Approval.{approve_tx, count_approvals, required_approvals}
use duevy_be.Approval.Signing.{approve_tx-cases, released_row, signature}

-- The row is still there, and its status has stayed or gone along an edge of the graph.
abbrev Goes : ℕ → Payout → Db → Type 0
Goes id p db =
    (q : Payout) × (find_payout id db.payouts ≡ some q)
    × ((q.status ≡ p.status) ⊎ (can_transition_payout p.status q.status ≡ true))

kept-Goes :
    (id : ℕ) (p : Payout) (a b : Db)
    → find_payout id a.payouts ≡ some p
    → b.payouts ≡ a.payouts
    → Goes id p b
kept-Goes id p a b found same = (p, ground (arith, found, same), inl refl)

same-Goes :
    (id : ℕ) (p : Payout) (a b : Db) → find_payout id a.payouts ≡ some p → b ≡ a → Goes id p b
same-Goes id p a b found same = rw same (kept-Goes id p a a found refl)

updated-Goes :
    (id j : ℕ) (f : Payout → Payout) (p r : Payout) (a b : Db)
    → ((s : Payout) → (f s).id ≡ s.id)
    → find_payout id a.payouts ≡ some p
    → find_payout j a.payouts ≡ some r
    → ((f r).status ≡ r.status) ⊎ (can_transition_payout r.status (f r).status ≡ true)
    → b.payouts ≡ updated r.id f a.payouts
    → Goes id p b
unfolding find_payout
updated-Goes id j f p r a b keeps found there edge rows =
    let law = find_by-update_by (λ (s : Payout). s.id) id r.id f a.payouts keeps in
    let own = own_id a.payouts j r there in
    elim (Bool-cases (r.id == id)) [
      | inr other ↦ (p, ground (arith, law, other, found, rows), inl refl)
      | inl mine ↦
          let e : j ≡ id = ground (arith, own, mine) in
          let same : p ≡ r = ground (arith, e, found, there) in
          (f r, ground (arith, law, mine, found, rows, same), rw same edge)
    ]

failed-Goes :
    (j id : ℕ) (p : Payout) (db : Db)
    → IsConsistent db.payouts db.ledger
    → find_payout id db.payouts ≡ some p
    → Goes id p (fail_tx j db).1
failed-Goes j id p db c found = elim (Option-cases (find_payout j db.payouts)) [
  | inl gone ↦ same-Goes id p db _ found (fail_tx-unchanged j db (inl gone))
  | inr (r, there) ↦ elim (Bool-cases (can_transition_payout r.status (failed_status r.status))) [
    | inr no_way ↦ same-Goes id p db _ found (fail_tx-unchanged j db (inr (r, there, no_way)))
    | inl can ↦
        updated-Goes id j (failed_row r) p r db (fail_tx j db).1 (λ s. refl) found there (inr can)
          (rw (fail_tx_lem j db c r there can) refl)
  ]
]

cancelled-Goes :
    (j id : ℕ) (p : Payout) (db : Db)
    → IsConsistent db.payouts db.ledger
    → find_payout id db.payouts ≡ some p
    → Goes id p (cancel_tx j db).1
cancelled-Goes j id p db c found = elim (Option-cases (find_payout j db.payouts)) [
  | inl gone ↦ same-Goes id p db _ found (cancel_tx-unchanged j db (inl gone))
  | inr (r, there) ↦ elim (Bool-cases (can_transition_payout r.status PayoutStatus.cancelled)) [
    | inr no_way ↦ same-Goes id p db _ found (cancel_tx-unchanged j db (inr (r, there, no_way)))
    | inl can ↦
        updated-Goes id j cancelled_row p r db (cancel_tx j db).1 (λ s. refl) found there (inr can)
          (rw (cancel_tx_lem j db c r there can) refl)
  ]
]

dispatched-Goes :
    (j id : ℕ) (x y : Option ℕ) (p : Payout) (db : Db)
    → find_payout id db.payouts ≡ some p
    → Goes id p (processing_tx j x y db).1
unfolding can_transition_payout
dispatched-Goes j id x y p db found = elim (processing_tx-cases j x y db) [
  | inl same ↦ same-Goes id p db _ found same
  | inr (r, there, waits, done) ↦
      updated-Goes id j (processing_row x y) p r db (processing_tx j x y db).1 (λ s. refl) found
        there (inr (rw waits refl)) (rw done refl)
]

completed-Goes :
    (reference id : ℕ) (fee : Option ℕ) (p : Payout) (db : Db)
    → find_payout id db.payouts ≡ some p
    → Goes id p (complete_tx reference fee db).1
completed-Goes reference id fee p db found = elim (complete_tx-cases reference fee db) [
  | inl same ↦ same-Goes id p db _ found same
  | inr (j, r, there, can, done) ↦
      updated-Goes id j (success_row fee) p r db (complete_tx reference fee db).1 (λ s. refl) found
        there (inr can) (rw done refl)
]

approved-Goes :
    (payout user : ℕ) (signatories : List ℕ) (id : ℕ) (p : Payout) (db : Db)
    → find_payout id db.payouts ≡ some p
    → Goes id p (approve_tx payout user signatories db).1
unfolding can_transition_payout
approved-Goes payout user signatories id p db found =
    elim (approve_tx-cases payout user signatories db) [
      | inl same ↦ same-Goes id p db _ found same
      | inr (r, there, waits, _, done) ↦
          elim (Bool-cases (
            leb required_approvals
              (count_approvals payout signatories (signature payout user ∷ db.approvals)))) [
                | inl enough ↦
                    updated-Goes id payout released_row p r db
                      (approve_tx payout user signatories db).1 (λ s. refl) found there
                      (inr (rw waits refl)) (rw (done, enough) refl)
                | inr short ↦
                    kept-Goes id p db (approve_tx payout user signatories db).1 found
                      (rw (done, short) refl)
              ]
    ]

settled-Goes :
    (j now id : ℕ) (amount : ℤ) (p : Payout) (db : Db)
    → find_payout id db.payouts ≡ some p
    → Goes id p (fee_settled_tx j now amount db).1
unfolding fee_settled_tx
settled-Goes j now id amount p db found = elim (Option-cases (find_payout j db.payouts)) [
  | inl gone ↦ kept-Goes id p db (fee_settled_tx j now amount db).1 found (
      rw (update_payout_lem j (settled_row now amount) db)
        (updated-none j (settled_row now amount) db.payouts gone))
  | inr (r, there) ↦
      updated-Goes id j (settled_row now amount) p r db (fee_settled_tx j now amount db).1
        (λ s. refl) found there (inl refl)
        (rw (update_payout_lem j (settled_row now amount) db, own_id db.payouts j r there) refl)
]

credited-Goes :
    (e : LedgerEntry) (id : ℕ) (p : Payout) (db : Db)
    → find_payout id db.payouts ≡ some p
    → Goes id p (append e db).1
credited-Goes e id p db found = elim (append-cases e db) [
  | inl same ↦ same-Goes id p db (append e db).1 found same
  | inr new ↦ kept-Goes id p db (append e db).1 found (rw new refl)
]

created-Goes :
    (n : Payout) (id : ℕ) (p : Payout) (db : Db)
    → IsConsistent db.payouts db.ledger
    → IsNew n
    → find_payout id db.payouts ≡ some p
    → Goes id p (create_tx n db).1
created-Goes n id p db c new found = elim (create_tx-cases n db c new) [
  | inl (same, _) ↦ same-Goes id p db (create_tx n db).1 found same
  | inr (quiet, fits, _, fresh, done) ↦
      let law = find_payout-cons id n db.payouts in
      let apart = fresh_id n.id id p db fresh found in
      (p, rw done (ground (arith, law, found, apart)), inl refl)
]
  where
    fresh_id :
        (j id : ℕ) (p : Payout) (db : Db)
        → find_payout j db.payouts ≡ none
        → find_payout id db.payouts ≡ some p
        → (j == id) ≡ false
    fresh_id j id p db fresh found = elim (Bool-cases (j == id)) [
      | inl same ↦ absurd (ground (arith, ==→eq j id same, fresh, found))
      | inr apart ↦ apart
    ]

withdrawn-Goes :
    (r : PayoutRequest) (id : ℕ) (p : Payout) (db : Db)
    → IsConsistent db.payouts db.ledger
    → find_payout id db.payouts ≡ some p
    → Goes id p (withdraw_tx r db).1
withdrawn-Goes r id p db c found = elim (withdraw_tx-cases r db) [
  | inl (same, _) ↦ same-Goes id p db (withdraw_tx r db).1 found same
  | inr (b, low, high, e, done) ↦
      rw done (created-Goes (new_payout r b) id p db c (new_payout-IsNew r b low high e) found)
]

apply-Goes :
    (m : Move) (id : ℕ) (p : Payout) (db : Db)
    → IsConsistent db.payouts db.ledger
    → find_payout id db.payouts ≡ some p
    → Goes id p (apply m db)
unfolding apply
apply-Goes (withdraw r) id p db c found = withdrawn-Goes r id p db c found
apply-Goes (approve payout user signatories) id p db c found =
    approved-Goes payout user signatories id p db found
apply-Goes (dispatched j x y) id p db c found = dispatched-Goes j id x y p db found
apply-Goes (completed reference fee) id p db c found = completed-Goes reference id fee p db found
apply-Goes (failed j) id p db c found = failed-Goes j id p db c found
apply-Goes (cancelled j) id p db c found = cancelled-Goes j id p db c found
apply-Goes (fee_settled j now amount) id p db c found = settled-Goes j now id amount p db found
apply-Goes (credited e) id p db c found = elim (Bool-cases (is_plain_credit e)) [
  | inl plain ↦ rw plain (credited-Goes e id p db found)
  | inr other ↦
      kept-Goes id p db (if is_plain_credit e then (append e db).1 else db) found (rw other refl)
]

-- The row has another status in the second table.
abbrev pub is_changed : Option Payout → Option Payout → Bool
is_changed (some p) (some q) = not (is_payout p.status q.status)
is_changed _ _ = false

-- How many of the transactions changed the status of the payout.
unfoldable pub changes : ℕ → List Move → Db → ℕ
unfolding apply
changes id [] db = 0
changes id (m ∷ ms) db =
    let rest = changes id ms (apply m db) in
    if is_changed (find_payout id db.payouts) (find_payout id (apply m db).payouts)
    then suc rest
    else rest

step_rank :
    (s t : PayoutStatus)
    → (t ≡ s) ⊎ (can_transition_payout s t ≡ true)
    → ((is_payout s t ≡ true) × (t ≡ s))
      ⊎ ((is_payout s t ≡ false) × (suc (payout_rank s) ≤ payout_rank t))
step_rank s t (inl same) = rw same (inl (own s, refl))
  where
    own : (s : PayoutStatus) → is_payout s s ≡ true
    own s = ground arith
step_rank s t (inr can) =
    inr (ground (arith, payout_forward s t can), ground (arith, payout_forward s t can))

run-rank :
    (ms : List Move) (id : ℕ) (p : Payout) (db : Db)
    → IsConsistent db.payouts db.ledger
    → find_payout id db.payouts ≡ some p
    → (q : Payout) × (find_payout id (run ms db).payouts ≡ some q)
      × (payout_rank p.status + changes id ms db ≤ payout_rank q.status)
      × (((changes id ms db ≡ 0) × (q.status ≡ p.status)) ⊎ (1 ≤ changes id ms db))
unfolding run changes
run-rank [] id p db c found = (p, found, omega arith, inl (refl, refl))
run-rank (m ∷ ms) id p db c found =
    let (r, there, edge) = apply-Goes m id p db c found in
    let (q, last, rank, which) = run-rank ms id r (apply m db) (apply-IsConsistent m db c) there in
    elim (step_rank p.status r.status edge) [
      | inl (same, e) ↦
          rw (found, there, same) (q, last, ground (arith, e, rank), ground (arith, e, which))
      | inr (moved, up) ↦
          rw (found, there, moved) (q, last, omega (arith, up, rank), inr (omega arith))
    ]

top_rank : (s : PayoutStatus) → payout_rank s ≤ 4
top_rank s = ground arith

-- Start with a consistent database and run any list of transactions, committed or refused, in any
-- order. A payout that is there stays there, and at most four of the transactions change its status.
-- If none does, its status is what it was, and if one does, its status is another one at the end, so a
-- payout never comes back to a status that it has left.
pub run-never_back :
    (ms : List Move) (id : ℕ) (p : Payout) (db : Db)
    → IsConsistent db.payouts db.ledger
    → find_payout id db.payouts ≡ some p
    → (q : Payout) × (find_payout id (run ms db).payouts ≡ some q)
      × (changes id ms db ≤ 4)
      × (((changes id ms db ≡ 0) × (q.status ≡ p.status))
          ⊎ ((1 ≤ changes id ms db) × (q.status ≢ p.status)))
run-never_back ms id p db c found =
    let (q, last, rank, which) = run-rank ms id p db c found in
    (
      q,
      last,
      omega (arith, rank, top_rank q.status),
      elim which [
        | inl still ↦ inl still
        | inr moved ↦ inr (moved, λ same. ground (arith, same, rank, moved))
      ],
    )
