-- ===== src/Withdrawal/Guarantees.antt =====
-- Requests, approvals, provider answers and reconciliation runs on the payouts of
-- src/services/withdrawal.service.ts, in whatever order they come.
use duevy_be.Base.{
  ℕ, ◌+◌, ◌≤◌, ◌≡◌, refl, ◌∙◌, true, false, ◌==◌, if◌then◌else◌, none, some, List, [], ◌∷◌, ◌⊎◌,
  Option, leb→le, Bool-cases, inl, inr, arith,
}
use duevy_be.Base.Int.{pos, pos_part, neg_part, ◌+ℤ◌}
use duevy_be.Base.Table.{find_by-key, find_by-update_by}
use duevy_be.Base.Results.{ok}
use duevy_be.Money.{WithdrawalBreakdown, compute_withdrawal}
use duevy_be.Money.Fees.{compute_withdrawal_adds_up}
use duevy_be.StateMachine.{PayoutStatus, payout_active, can_transition_payout}
use duevy_be.Store.{Db, Payout}
use duevy_be.Ledger.{Ledger, get_space_balance}
use duevy_be.Ledger.Append.{get_space_balance-cons}
use duevy_be.Withdrawal.Payouts.{
  find_payout, find_active, PayoutRequest, withdraw_tx, fail_tx, failed_status, new_payout,
  discount_percent, due_covers, due_available, taken,
}
use duevy_be.Withdrawal.Invariant.{IsConsistent, paid_out, put_back, is_closed_unpaid}
use duevy_be.Withdrawal.Preserve.{updated, reversal_of}
use duevy_be.Withdrawal.Effects.{fail_tx_lem, fail_tx-unchanged, failed_row}
use duevy_be.Withdrawal.Create.{
  create_tx-cases, withdraw_tx-cases, new_payout-IsNew, debited, IsNew, find_payout-cons,
}
use duevy_be.Withdrawal.Runs.{Move, run, run-IsConsistent, empty-IsConsistent}

-- Start with no payouts and an empty ledger and run any list of transactions, committed or refused,
-- in any order. Then each payout's amount is its net plus its fee, the ledger's debits for it add up
-- to the amount, and its credits to the amount if it has failed, was reversed or was cancelled, and
-- to nothing if not.
pub payouts_are_accounted :
    (ms : List Move) (db : Db)
    → db.payouts ≡ []
    → db.ledger ≡ []
    → (id : ℕ) (p : Payout) → find_payout id (run ms db).payouts ≡ some p
    → (p.amount ≡ p.net_kobo + p.fee_kobo)
      × (paid_out p.id (run ms db).ledger ≡ p.amount)
      × (put_back p.id (run ms db).ledger ≡ (if is_closed_unpaid p.status then p.amount else 0))
payouts_are_accounted ms db no_payouts no_entries id p found =
    let c = run-IsConsistent ms db (empty-IsConsistent db no_payouts no_entries) in
    let a = c.accounted id p found in (a.adds_up, a.debited, a.restored)

-- Start with no payouts and an empty ledger and run any list of transactions in any order: no space's
-- balance is negative.
pub no_overdraft :
    (ms : List Move) (db : Db)
    → db.payouts ≡ []
    → db.ledger ≡ []
    → (space : ℕ) → neg_part (get_space_balance space (run ms db).ledger) ≡ 0
no_overdraft ms db no_payouts no_entries space =
    (run-IsConsistent ms db (empty-IsConsistent db no_payouts no_entries)).solvent space

-- Start with no payouts and an empty ledger and run any list of transactions in any order: two
-- payouts of one space that both await approval, wait to be sent or are being processed have the
-- same id.
pub one_payout_in_flight :
    (ms : List Move) (db : Db)
    → db.payouts ≡ []
    → db.ledger ≡ []
    → (i j : ℕ) (p q : Payout) → find_payout i (run ms db).payouts ≡ some p
    → find_payout j (run ms db).payouts ≡ some q
    → p.space_id ≡ q.space_id
    → payout_active p.status ≡ true
    → payout_active q.status ≡ true
    → i ≡ j
one_payout_in_flight ms db no_payouts no_entries i j p q hi hj same ap aq =
    let c = run-IsConsistent ms db (empty-IsConsistent db no_payouts no_entries) in
    let bp : p.active_space_id ≡ some p.space_id =
      ground (arith, (c.accounted i p hi).active, ap) in
    let bq : q.active_space_id ≡ some p.space_id =
      ground (arith, (c.accounted j q hj).active, aq, same) in
    c.one_active i j p.space_id p q hi hj bp bq

-- A row found after an update of that row.
pub found_updated :
    (k : ℕ) (f : Payout → Payout) (ps : List Payout) (p : Payout)
    → ((r : Payout) → (f r).id ≡ r.id)
    → find_payout k ps ≡ some p
    → find_payout k (updated p.id f ps) ≡ some (f p)
unfolding find_payout
found_updated k f ps p keeps there =
    let law = find_by-update_by (λ (r : Payout). r.id) k p.id f ps keeps in
    let own = find_by-key (λ (r : Payout). r.id) k ps {a = p} there in ground (arith, law, own)

failed_row_closed :
    (s : PayoutStatus)
    → can_transition_payout (failed_status s) (failed_status (failed_status s)) ≡ false
unfolding can_transition_payout
failed_row_closed s = ground arith

-- In a consistent database, fail a payout whose status the state machine lets fail. The payout's
-- space gets exactly the amount back and no other balance moves. Failing it again changes nothing.
pub fail_restores_once :
    (id : ℕ) (db : Db)
    → IsConsistent db.payouts db.ledger
    → (p : Payout) → find_payout id db.payouts ≡ some p
    → can_transition_payout p.status (failed_status p.status) ≡ true
    → let after = (fail_tx id db).1 in
      ((space : ℕ)
        → get_space_balance space after.ledger ≡ (
            if p.space_id == space
            then pos p.amount +ℤ get_space_balance space db.ledger
            else get_space_balance space db.ledger))
      × ((fail_tx id after).1 ≡ after)
fail_restores_once id db c p found can =
    let done = fail_tx_lem id db c p found can in
    (
      λ space. rw done (get_space_balance-cons space (reversal_of p) db.ledger),
      rw done (
          fail_tx-unchanged id
            (record db {
              payouts = updated p.id (failed_row p) db.payouts;
              ledger = reversal_of p ∷ db.ledger;
            })
            (inr (
              failed_row p p,
              found_updated id (failed_row p) db.payouts p (λ r. refl) found,
              failed_row_closed p.status,
            ))),
    )

-- What a withdrawal's debits take from the balances.
pub debited-balance :
    (p : Payout) (l : Ledger) (space : ℕ)
    → IsNew p
    → p.amount ≤ pos_part (get_space_balance p.space_id l)
    → (get_space_balance space l) ≡ (
        if p.space_id == space
        then pos p.amount +ℤ get_space_balance space (debited p l)
        else get_space_balance space (debited p l))
unfolding get_space_balance
debited-balance p l space n fits = elim (Bool-cases (p.fee_kobo == 0)) [
  | inl free ↦ rw free (ground (arith, n.adds_up))
  | inr paid ↦ rw paid (ground (arith, n.adds_up))
]

due_covers-cases :
    (due : Option ℕ) (p : Payout) (db : Db)
    → due_covers due p db ≡ true
    → (due ≡ none) ⊎ ((id : ℕ) × (due ≡ some id) × (p.amount ≤ due_available p.space_id id db))
unfolding due_covers
due_covers-cases none p db h = inl refl
due_covers-cases (some id) p db h =
    inr (id, refl, leb→le p.amount (due_available p.space_id id db) h)

-- The row says what the request asked for.
abbrev pub IsAsked : PayoutRequest → Payout → Type 0
IsAsked r p =
    (p.id ≡ r.id)
    × (p.reference ≡ r.reference)
    × (p.space_id ≡ r.space_id)
    × (p.due_id ≡ r.due_id)
    × (p.amount ≡ r.amount_kobo)
    × (p.requested_by_id ≡ some r.user_id)
    × (p.beneficiary_id ≡ r.beneficiary_id)
    × (p.destination_id ≡ some r.destination_id)
    × (p.provider_account_id ≡ some r.account_id)
    × (p.approval_expires_at ≡ r.approval_expires_at)
    × (((r.approval_expires_at ≡ none) × (p.status ≡ PayoutStatus.pending))
        ⊎ ((t : ℕ) × (r.approval_expires_at ≡ some t)
            × (p.status ≡ PayoutStatus.awaiting_approval)))

new_payout-IsAsked :
    (r : PayoutRequest) (b : WithdrawalBreakdown)
    → b.gross ≡ r.amount_kobo
    → IsAsked r (new_payout r b)
new_payout-IsAsked r b gross =
    (refl, refl, refl, refl, gross, refl, refl, refl, refl, refl, window r.approval_expires_at)
  where
    window :
        (o : Option ℕ)
        → ((o ≡ none)
            × ((if taken o then PayoutStatus.awaiting_approval else PayoutStatus.pending)
                ≡ PayoutStatus.pending))
          ⊎ ((t : ℕ) × (o ≡ some t)
              × ((if taken o then PayoutStatus.awaiting_approval else PayoutStatus.pending)
                  ≡ PayoutStatus.awaiting_approval))
    window none = inl (refl, refl)
    window (some t) = inr (t, refl, refl)

-- In a consistent database, a withdrawal that is answered was covered by its space's balance, which
-- goes down by exactly the amount asked for, while no other balance moves. The row that is stored under
-- the id of the request is the answer; it has the reference, space, due, amount, requester,
-- beneficiary, destination, account and window that were asked for, awaits approval if there is a
-- window and waits to be sent if not, and splits the amount as the breakdown does. What is left of its
-- due covered the amount if it names one, and no other payout of the space was in flight.
pub withdraw_tx_lem :
    (r : PayoutRequest) (db : Db) {p : Payout}
    → IsConsistent db.payouts db.ledger
    → (withdraw_tx r db).0 ≡ ok p
    → IsAsked r p
      × (find_payout r.id (withdraw_tx r db).1.payouts ≡ some p)
      × ((b : WithdrawalBreakdown) × (compute_withdrawal r.amount_kobo (discount_percent r.partner)
            ≡ ok b)
          × (p.net_kobo ≡ b.net)
          × (p.fee_kobo ≡ b.fee)
          × (p.fee_discount_kobo ≡ b.discount))
      × (find_active r.space_id db.payouts ≡ none)
      × (r.amount_kobo ≤ pos_part (get_space_balance r.space_id db.ledger))
      × ((r.due_id ≡ none)
          ⊎ ((due : ℕ) × (r.due_id ≡ some due) × (r.amount_kobo ≤ due_available r.space_id due db)))
      × ((space : ℕ)
          → get_space_balance space db.ledger ≡ (
              if r.space_id == space
              then pos r.amount_kobo +ℤ get_space_balance space (withdraw_tx r db).1.ledger
              else get_space_balance space (withdraw_tx r db).1.ledger))
withdraw_tx_lem r db {p} c answered = elim (withdraw_tx-cases r db) [
  | inl (_, refused) ↦ absurd (ground arith)
  | inr (b, low, high, e, same) ↦
      let n = new_payout-IsNew r b low high e in
      let gross = (compute_withdrawal_adds_up r.amount_kobo (discount_percent r.partner) low e).0 in
      elim (create_tx-cases (new_payout r b) db c n) [
        | inl (_, refused) ↦ absurd (ground arith)
        | inr (quiet, fits, covered, _, done) ↦
            let moves = λ (space : ℕ). debited-balance (new_payout r b) db.ledger space n fits in
            let all : withdraw_tx r db ≡ (
              ok (new_payout r b),
              record db {
                payouts = new_payout r b ∷ db.payouts;
                ledger = debited (new_payout r b) db.ledger;
              },
            ) =
              same ∙ done in
            let is : p ≡ new_payout r b = ground (arith, all) in
            (
              rw is (new_payout-IsAsked r b gross),
              rw (all, is) (ground (arith, find_payout-cons r.id (new_payout r b) db.payouts)),
              (b, e, ground (arith, is), ground (arith, is), ground (arith, is)),
              quiet,
              ground (arith, fits, gross),
              simp (← gross) (due_covers-cases r.due_id (new_payout r b) db covered),
              λ space. simp (all, ← gross) (moves space),
            )
      ]
]
