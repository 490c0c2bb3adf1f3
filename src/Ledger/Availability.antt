-- ===== src/Ledger/Availability.antt =====
-- `getDueAvailability` of src/services/ledger.service.ts beside the balance of the space.
pub mod Partition
pub mod Settle
use duevy_be.Base.{
  ℕ, ◌+◌, ◌-◌, ◌≤◌, ◌<◌, ◌≡◌, ◌⊎◌, Bool, true, false, ◌==◌, if◌then◌else◌, Option, none, some, List,
  [], ◌∷◌, All, sum_by, sum_by-map, sum_by_congr, sum_by_add, arith,
}
use duevy_be.Base.Int.{ℤ, pos_part, neg_part}
use duevy_be.Store.{Due, LedgerEntry}
use duevy_be.Ledger.{
  Ledger, get_space_balance, net_of, get_due_availability, order_dues, lead_held, settle,
}
use duevy_be.Ledger.Balance.{
  credits, debits, group_credits, group_debits, credit_of, debit_of, get_space_balance-parts,
  net_of-parts,
}
use Partition.{Covers, group_sums}
use Settle.{
  sum_by-order_dues, order_dues-LeadFirst, sum_avail, settle_total, settle-LeadFirst, UsedUp,
  Untouched,
}

one_side : (z : ℤ) → (pos_part z ≡ 0) ⊎ (neg_part z ≡ 0)
one_side z = ground arith

module _ (space : ℕ) (dues : List Due) (lead : Option ℕ) (l : Ledger) where
  abbrev own : Due → ℕ
  own d = pos_part (net_of space (some d.id) l)

  abbrev short : Due → ℕ
  short d = neg_part (net_of space (some d.id) l)

  -- Over all the dues: what they have and their debits, what they lack and their credits.
  own-short :
      sum_by own dues + sum_by (λ d. group_debits space (some d.id) l) dues
      ≡ sum_by short dues + sum_by (λ d. group_credits space (some d.id) l) dues
  own-short = omega (
    arith,
    sum_by_congr (λ (d : Due). own d + group_debits space (some d.id) l)
        (λ (d : Due). short d + group_credits space (some d.id) l) dues
        (λ (d : Due). net_of-parts space (some d.id) l),
    sum_by_add own (λ (d : Due). group_debits space (some d.id) l) dues,
    sum_by_add short (λ (d : Due). group_credits space (some d.id) l) dues,
  )

  -- When every entry of the space that names a due names exactly one of its dues, what the dues can
  -- pay out adds up to no more than the space's balance (0 if that is negative), and to exactly that
  -- unless money without a due is left over.
  pub get_due_availability_total :
      All (λ e. (e.space_id == space) ≡ true → Covers dues e.due_id) l
      → let total = sum_avail (get_due_availability space dues lead l) in
        (total ≤ pos_part (get_space_balance space l))
        × ((0 < pos_part (net_of space none l)) ⊎ (total ≡ pos_part (get_space_balance space l)))
  unfolding get_due_availability
  get_due_availability_total h = ground (
    arith,
    settle_total own (neg_part (net_of space none l) + sum_by short (order_dues lead dues))
        (order_dues lead dues),
    sum_by-order_dues own lead dues,
    sum_by-order_dues short lead dues,
    own-short,
    get_space_balance-parts space l,
    net_of-parts space none l,
    group_sums space credit_of dues l h,
    group_sums space debit_of dues l h,
    one_side (get_space_balance space l),
  )

  -- Either every due that the lead holds is used up, or each co-rep's due keeps all of its own net:
  -- a co-rep's due gives money up only when the lead's dues have none left.
  pub get_due_availability_lead_first :
      All (UsedUp lead) (get_due_availability space dues lead l)
      ⊎ All (Untouched lead own) (get_due_availability space dues lead l)
  unfolding get_due_availability
  get_due_availability_lead_first =
      settle-LeadFirst lead own
        (neg_part (net_of space none l) + sum_by short (order_dues lead dues))
        (order_dues lead dues) (order_dues-LeadFirst lead dues)
