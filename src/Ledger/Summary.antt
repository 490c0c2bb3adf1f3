-- ===== src/Ledger/Summary.antt =====
-- `getSpaceLedgerSummary` of src/services/ledger.service.ts: figures that the database groups by entry
-- type.
use duevy_be.Base.{
  ℕ, ◌+◌, ◌≡◌, refl, Bool, true, false, ◌&&◌, ◌==◌, if◌then◌else◌, List, [], ◌∷◌, sum_by, arith,
  holds,
}
use duevy_be.Base.Int.{ℤ, pos, ◌+ℤ◌, ◌-ℤ◌, int_laws}
use duevy_be.StateMachine.{PayoutStatus, payout_active}
use duevy_be.Store.{EntryType, Payout}
use duevy_be.Ledger.{Ledger, is_entry, get_space_balance}
use duevy_be.Ledger.Balance.{credits, debits, get_space_balance-parts}
use duevy_be.Ledger.Append.{IsWellFormed}

pub record SpaceLedgerSummary : Type 0 where
  pub balance : ℤ
  pub collected : ℕ
  pub withdrawn : ℤ
  pub withdrawal_fees : ℤ
  pub in_flight : ℕ

-- `groupBy({ by: ['type'] })` and `byType.find(…)?._sum ?? 0`
unfoldable pub sum_of_type : ℕ → EntryType → Ledger → ℕ
sum_of_type space t l =
    sum_by (λ e. if e.space_id == space && is_entry t e.entry_type then e.amount_kobo else 0) l

-- `ledgerEntries: { some: { type: 'payout_reversal' } }`
unfoldable pub has_reversal : ℕ → Ledger → Bool
has_reversal payout [] = false
has_reversal payout (e ∷ l) =
    let rest = has_reversal payout l in
    if is_entry EntryType.payout_reversal e.entry_type && holds payout e.payout_id
    then true
    else rest

unfoldable pub is_restored : PayoutStatus → Bool
is_restored PayoutStatus.failed = true
is_restored PayoutStatus.reversed = true
is_restored PayoutStatus.cancelled = true
is_restored _ = false

-- The payouts of the space that a test selects, summed over a column.
unfoldable pub sum_payouts : ℕ → (Payout → Bool) → (Payout → ℕ) → List Payout → ℕ
sum_payouts space test column ps =
    sum_by (λ p. if p.space_id == space && test p then column p else 0) ps

unfoldable pub get_space_ledger_summary : ℕ → Ledger → List Payout → SpaceLedgerSummary
unfolding sum_of_type sum_payouts has_reversal is_restored payout_active ◌+ℤ◌ ◌-ℤ◌
get_space_ledger_summary space l payouts =
    let sum = λ (t : EntryType). sum_of_type space t l in
    let reversed = λ (p : Payout). is_restored p.status && has_reversal p.id l in
    let collected = sum EntryType.due_payment + sum EntryType.manual_credit in
    record {
      balance =
          pos (collected + sum EntryType.payout_reversal)
          -ℤ pos (sum EntryType.payout)
          -ℤ pos (sum EntryType.payout_fee)
          -ℤ pos (sum EntryType.refund);
      collected = collected;
      withdrawn =
          pos (sum EntryType.payout) -ℤ pos (sum_payouts space reversed (λ p. p.net_kobo) payouts);
      withdrawal_fees =
          pos (sum EntryType.payout_fee)
          -ℤ pos (sum_payouts space reversed (λ p. p.fee_kobo) payouts);
      in_flight = sum_payouts space (λ p. payout_active p.status) (λ p. p.amount) payouts;
    }

-- In a well-formed ledger the types split the credits and the debits.
types_split :
    (space : ℕ) (l : Ledger)
    → IsWellFormed l
    → (credits space l
        ≡ sum_of_type space EntryType.due_payment l
          + sum_of_type space EntryType.manual_credit l
          + sum_of_type space EntryType.payout_reversal l)
      × (debits space l
          ≡ sum_of_type space EntryType.payout l
            + sum_of_type space EntryType.payout_fee l
            + sum_of_type space EntryType.refund l)
unfolding sum_of_type
types_split space [] h = (refl, refl)
types_split space (e ∷ l) h = ground (arith, types_split space l h.3)

-- The summary's balance, put together from the sums by type, is the balance that withdrawals are
-- checked against, for every ledger that is well formed.
pub summary-balance :
    (space : ℕ) (l : Ledger) (payouts : List Payout)
    → IsWellFormed l
    → (get_space_ledger_summary space l payouts).balance ≡ get_space_balance space l
unfolding get_space_ledger_summary
summary-balance space l payouts h =
    grind (int_laws, types_split space l h, get_space_balance-parts space l)
