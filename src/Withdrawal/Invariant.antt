-- ===== src/Withdrawal/Invariant.antt =====
-- The invariant on the payouts and the ledger between two transactions of
-- src/services/withdrawal.service.ts, and what the ledger has debited and credited for a payout.
use duevy_be.Base.{
  ℕ, ◌+◌, ◌≤◌, ◌<◌, ◌≡◌, ◌⊎◌, refl, Bool, true, false, ◌&&◌, holds, if◌then◌else◌, none, some, List,
  [], ◌∷◌, sum_by, arith,
}
use duevy_be.Base.Int.{ℤ, pos_part, neg_part}
use duevy_be.Money.{max_safe_integer}
use duevy_be.StateMachine.{PayoutStatus, payout_active}
use duevy_be.Store.{Payout, LedgerEntry, EntryType}
use duevy_be.Ledger.{Ledger, is_entry, has_conflict, get_space_balance}
use duevy_be.Ledger.Balance.{credit_of, debit_of, credits, debits, get_space_balance-parts}
use duevy_be.Withdrawal.Payouts.{find_payout}

-- What the ledger has debited for one payout, and credited back.
abbrev pub paid_out : ℕ → Ledger → ℕ
paid_out id l = sum_by (λ e. if holds id e.payout_id then debit_of e else 0) l

abbrev pub put_back : ℕ → Ledger → ℕ
put_back id l = sum_by (λ e. if holds id e.payout_id then credit_of e else 0) l

-- An entry of this type stands for the payout.
abbrev pub has_entry : EntryType → ℕ → Ledger → Bool
has_entry t id [] = false
has_entry t id (e ∷ l) =
    let rest = has_entry t id l in
    if is_entry t e.entry_type && holds id e.payout_id then true else rest

-- The statuses of a payout whose money has been given back.
abbrev pub is_closed_unpaid : PayoutStatus → Bool
is_closed_unpaid PayoutStatus.awaiting_approval = false
is_closed_unpaid PayoutStatus.pending = false
is_closed_unpaid PayoutStatus.processing = false
is_closed_unpaid PayoutStatus.success = false
is_closed_unpaid PayoutStatus.failed = true
is_closed_unpaid PayoutStatus.reversed = true
is_closed_unpaid PayoutStatus.cancelled = true

pub record IsAccounted (p : Payout) (l : Ledger) : Type 0 where
  pub adds_up : p.amount ≡ p.net_kobo + p.fee_kobo
  pub sends : 0 < p.net_kobo
  pub safe : p.amount ≤ max_safe_integer
  pub debited : paid_out p.id l ≡ p.amount
  pub restored : put_back p.id l ≡ (if is_closed_unpaid p.status then p.amount else 0)
  pub reversal : has_entry EntryType.payout_reversal p.id l ≡ is_closed_unpaid p.status
  pub active : p.active_space_id ≡ (if payout_active p.status then some p.space_id else none)

pub record IsUnused (id : ℕ) (l : Ledger) : Type 0 where
  pub no_debit : paid_out id l ≡ 0
  pub no_credit : put_back id l ≡ 0
  pub no_payout : has_entry EntryType.payout id l ≡ false
  pub no_fee : has_entry EntryType.payout_fee id l ≡ false
  pub no_reversal : has_entry EntryType.payout_reversal id l ≡ false

pub record IsConsistent (ps : List Payout) (l : Ledger) : Type 0 where
  -- Every row of the table is accounted for, and no entry names a payout that is not there.
  pub accounted : (id : ℕ) (p : Payout) → find_payout id ps ≡ some p → IsAccounted p l
  pub unused : (id : ℕ) → find_payout id ps ≡ none → IsUnused id l
  -- A space has one active payout at most.
  pub one_active :
      (i j s : ℕ) (p q : Payout)
      → find_payout i ps ≡ some p
      → find_payout j ps ≡ some q
      → p.active_space_id ≡ some s
      → q.active_space_id ≡ some s
      → i ≡ j
  -- No space's balance is negative.
  pub solvent : (s : ℕ) → neg_part (get_space_balance s l) ≡ 0

-- With no due payment on it, an entry collides with the entries of its type for its payout.
pub has_conflict-payout :
    (e : LedgerEntry) (id : ℕ) (l : Ledger)
    → e.due_payment_id ≡ none
    → e.payout_id ≡ some id
    → has_conflict e l ≡ has_entry e.entry_type id l
unfolding has_conflict
has_conflict-payout e id [] d h = refl
has_conflict-payout e id (f ∷ l) d h = ground (arith, has_conflict-payout e id l d h)

-- No balance is negative as long as the credits cover the debits.
pub solvent_of_covers :
    (s : ℕ) (l : Ledger) → debits s l ≤ credits s l → neg_part (get_space_balance s l) ≡ 0
solvent_of_covers s l h =
    grind (arith, get_space_balance-parts s l, one_side (get_space_balance s l))
  where
    one_side : (z : ℤ) → (pos_part z ≡ 0) ⊎ (neg_part z ≡ 0)
    one_side z = ground arith

pub covers_of_solvent :
    (s : ℕ) (l : Ledger) → neg_part (get_space_balance s l) ≡ 0 → debits s l ≤ credits s l
covers_of_solvent s l h = omega (arith, get_space_balance-parts s l)
