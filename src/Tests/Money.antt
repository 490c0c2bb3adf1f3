-- ===== src/Tests/Money.antt =====
-- Amounts, shares, histories and the ledger (src/lib/money.ts, src/lib/stateMachine.ts,
-- src/services/ledger.service.ts).
use duevy_be.Base.{
  Bool, All, Any, ℕ, ◌+◌, ◌*◌, ◌≤◌, ◌<◌, ◌≡◌, ◌⊎◌, refl, true, false, ◌&&◌, ◌==◌, if◌then◌else◌,
  none, some, List, [], ◌∷◌, length, sum, arith,
}
use duevy_be.Base.Int.{◌+ℤ◌, pos_part}
use duevy_be.Base.Results.{ok}
use duevy_be.Money.{
  WithdrawalBreakdown, compute_withdrawal, assert_kobo, withdrawal_fee, discounted_fee,
  mul_div_round_half_up,
}
use duevy_be.Money.Fees.{compute_withdrawal_adds_up}
use duevy_be.Money.Allocate.{
  floor_shares, remainders_from, sort_remainders, insert_sorted, sorts_before, hand_out, bump,
  largest_remainder, sum_numbers, add_number, round_number, unit_of, round_to, allocate,
}
use duevy_be.Money.Allocate.Shares.{allocate_conserves}
use duevy_be.Money.Allocate.Fair.{allocate_proportional, share_at}
use duevy_be.Money.Decimal.{Text, kobo_to_decimal, decimal_to_kobo}
use duevy_be.Money.Decimal.RoundTrip.{decimal_to_kobo-kobo_to_decimal}
use duevy_be.Store.{LedgerEntry, EntryType, Direction, Due, DueStatus}
use duevy_be.Ledger.{
  same_direction, expected_direction, append_ledger_entry, has_conflict, get_space_balance,
  get_due_availability, signed_amount, net_of,
}
use duevy_be.Ledger.Append.{IsWellFormed, IsSame, append_ledger_entry_lem}
use duevy_be.Ledger.Availability.{get_due_availability_total}
use duevy_be.Ledger.Availability.Settle.{sum_avail}
use duevy_be.Ledger.Summary.{get_space_ledger_summary, summary-balance}

breakdown : (b : WithdrawalBreakdown) × (compute_withdrawal 1000000 50 ≡ ok b)
unfolding compute_withdrawal withdrawal_fee discounted_fee mul_div_round_half_up assert_kobo
breakdown = (
  record {
    gross = 1000000;
    fee_before_discount = 10000;
    discount = 5000;
    fee = 5000;
    net = 995000;
  },
  refl,
)

compute_withdrawal_adds_up_example :
    (breakdown.0.gross ≡ 1000000)
    × (breakdown.0.gross ≡ breakdown.0.net + breakdown.0.fee)
    × (breakdown.0.fee_before_discount ≡ breakdown.0.fee + breakdown.0.discount)
    × (breakdown.0.fee ≤ 20000)
    × (9 * 1000000 ≤ 10 * breakdown.0.net)
compute_withdrawal_adds_up_example = compute_withdrawal_adds_up 1000000 50 (omega arith) breakdown.1

allocate_conserves_example :
    (ps : List ℕ) × (allocate 100 (1 ∷ 1 ∷ 1 ∷ []) ≡ ok ps) × (length ps ≡ 3) × (sum ps ≡ 100)
allocate_conserves_example =
    allocate_conserves 100 (1 ∷ 1 ∷ 1 ∷ []) (omega arith) (omega arith) (λ e. cc)

-- Weights whose sum is rounded: one kobo is lost.
allocate_rounds :
    allocate 9007199254740991 (9007199254740991 ∷ 1 ∷ 3 ∷ 3 ∷ [])
    ≡ ok (9007199254740983 ∷ 1 ∷ 3 ∷ 3 ∷ [])
unfolding allocate sum_numbers add_number round_number unit_of round_to largest_remainder
    floor_shares remainders_from sort_remainders insert_sorted sorts_before hand_out bump
    assert_kobo
allocate_rounds = refl

shares_run : allocate 100 (1 ∷ 1 ∷ 1 ∷ []) ≡ ok (34 ∷ 33 ∷ 33 ∷ [])
unfolding allocate sum_numbers add_number
shares_run = refl

allocate_proportional_example :
    (100 * 1 < 3 * share_at 0 (34 ∷ 33 ∷ 33 ∷ []) + 3)
    × (3 * share_at 0 (34 ∷ 33 ∷ 33 ∷ []) ≤ 100 * 1 + 3)
allocate_proportional_example =
    allocate_proportional 100 0 (1 ∷ 1 ∷ 1 ∷ []) (omega arith) shares_run (λ e. omega (arith, e))
      refl

decimal_round_trip_example :
    (s : Text) × (kobo_to_decimal 123405 ≡ ok s) × (decimal_to_kobo s ≡ ok 123405)
decimal_round_trip_example = decimal_to_kobo-kobo_to_decimal 123405 (omega arith)

abbrev collected : LedgerEntry
collected = record {
  space_id = 1;
  due_id = some 7;
  txn_id = none;
  due_payment_id = some 4;
  payout_id = none;
  entry_type = EntryType.due_payment;
  direction = Direction.credit;
  amount_kobo = 5000;
  gross_kobo = none;
  fee_kobo = none;
  net_kobo = none;
  reference = 9;
}

collected_run : append_ledger_entry collected [] ≡ ok (true, collected ∷ [])
unfolding append_ledger_entry
collected_run = refl

append_ledger_entry_example :
    (((◌≡◌ {A = Bool} true true)
        × All (λ (f : LedgerEntry). ¬ IsSame collected f) []
        × (collected ∷ [] ≡ collected ∷ []))
      ⊎ ((true ≡ false) × Any (IsSame collected) [] × (collected ∷ [] ≡ [])))
    × (0 < 5000)
    × (same_direction (expected_direction EntryType.due_payment) Direction.credit ≡ true)
    × IsWellFormed (collected ∷ [])
    × ((space : ℕ)
        → get_space_balance space (collected ∷ []) ≡ (
            if true && (1 == space)
            then signed_amount collected +ℤ get_space_balance space []
            else get_space_balance space []))
    × (append_ledger_entry collected (collected ∷ []) ≡ ok (false, collected ∷ []))
append_ledger_entry_example = append_ledger_entry_lem collected [] tt refl collected_run

IsWellFormed-run : IsWellFormed (collected ∷ [])
unfolding has_conflict
IsWellFormed-run = (omega arith, refl, refl, tt)

summary-balance_example :
    (get_space_ledger_summary 1 (collected ∷ []) []).balance ≡ get_space_balance 1 (collected ∷ [])
summary-balance_example = summary-balance 1 (collected ∷ []) [] IsWellFormed-run

abbrev due_seven : Due
due_seven = record {
  id = 7;
  space_id = 1;
  amount = 5000;
  status = DueStatus.active;
  allow_guests = false;
  assigned_rep_id = some 3;
  created_at = 0;
}

get_due_availability_total_example :
    (sum_avail (get_due_availability 1 (due_seven ∷ []) none (collected ∷ []))
      ≤ pos_part (get_space_balance 1 (collected ∷ [])))
    × ((0 < pos_part (net_of 1 none (collected ∷ [])))
        ⊎ (sum_avail (get_due_availability 1 (due_seven ∷ []) none (collected ∷ []))
            ≡ pos_part (get_space_balance 1 (collected ∷ []))))
get_due_availability_total_example =
    get_due_availability_total 1 (due_seven ∷ []) none (collected ∷ []) ((λ h. refl), tt)
