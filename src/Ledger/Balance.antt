-- ===== src/Ledger/Balance.antt =====
-- The credits and the debits behind `getSpaceBalance` of src/services/ledger.service.ts.
use duevy_be.Base.{
  ℕ, ◌+◌, ◌≡◌, refl, ◌&&◌, ◌==◌, if◌then◌else◌, Option, [], ◌∷◌, sum_by, Bool-cases, inl, inr,
  arith,
}
use duevy_be.Base.Int.{pos_part, neg_part, ◌-ℤ◌, int_laws}
use duevy_be.Store.{LedgerEntry, Direction}
use duevy_be.Ledger.{Ledger, is_credit, signed, get_space_balance, net_of, same_group}

-- What one entry adds to the credits, or to the debits, of those that a test selects.
abbrev pub credit_of : LedgerEntry → ℕ
credit_of e = if is_credit e.direction then e.amount_kobo else 0

abbrev pub debit_of : LedgerEntry → ℕ
debit_of e = if is_credit e.direction then 0 else e.amount_kobo

abbrev pub credits : ℕ → Ledger → ℕ
credits space l = sum_by (λ e. if e.space_id == space then credit_of e else 0) l

abbrev pub debits : ℕ → Ledger → ℕ
debits space l = sum_by (λ e. if e.space_id == space then debit_of e else 0) l

abbrev pub group_credits : ℕ → Option ℕ → Ledger → ℕ
group_credits space due l =
    sum_by (λ e. if e.space_id == space && same_group due e.due_id then credit_of e else 0) l

abbrev pub group_debits : ℕ → Option ℕ → Ledger → ℕ
group_debits space due l =
    sum_by (λ e. if e.space_id == space && same_group due e.due_id then debit_of e else 0) l

pub signed_parts :
    (d : Direction) (n : ℕ)
    → pos_part (signed d n) + (if is_credit d then 0 else n)
      ≡ neg_part (signed d n) + (if is_credit d then n else 0)
unfolding ◌-ℤ◌
signed_parts Direction.credit n = ground arith
signed_parts Direction.debit n = ground arith

-- The signed sum and the two plain sums agree.
pub get_space_balance-parts :
    (space : ℕ) (l : Ledger)
    → pos_part (get_space_balance space l) + debits space l
      ≡ neg_part (get_space_balance space l) + credits space l
unfolding get_space_balance
get_space_balance-parts space [] = refl
get_space_balance-parts space (e ∷ l) = elim (Bool-cases (e.space_id == space)) [
  | inl h ↦
      rw h
        (omega (int_laws, signed_parts e.direction e.amount_kobo, get_space_balance-parts space l))
  | inr h ↦ rw h (omega (arith, get_space_balance-parts space l))
]

pub net_of-parts :
    (space : ℕ) (due : Option ℕ) (l : Ledger)
    → pos_part (net_of space due l) + group_debits space due l
      ≡ neg_part (net_of space due l) + group_credits space due l
unfolding net_of
net_of-parts space due [] = refl
net_of-parts space due (e ∷ l) =
    elim (Bool-cases (e.space_id == space && same_group due e.due_id)) [
      | inl h ↦
          rw h (omega (int_laws, signed_parts e.direction e.amount_kobo, net_of-parts space due l))
      | inr h ↦ rw h (omega (arith, net_of-parts space due l))
    ]
