-- ===== src/Withdrawal/Escrow/View.antt =====
-- The purses that the payouts and the ledger of src/services/withdrawal.service.ts stand for, and how
-- an update of a row or an entry of the ledger moves them.
use duevy_be.Base.{
  ℕ, ◌+◌, ◌≡◌, refl, true, false, ◌==◌, if◌then◌else◌, Option, none, some, List, ◌∷◌, Bool-cases,
  inl, inr, arith,
}
use duevy_be.Base.Int.{pos_part-add, pos_part, neg_part}
use duevy_be.Base.Table.{find_by-key, find_by-update_by}
use duevy_be.Store.{Db, Payout, LedgerEntry, Direction}
use duevy_be.Ledger.{Ledger, get_space_balance}
use duevy_be.Ledger.Append.{get_space_balance-cons}
use duevy_be.Withdrawal.Payouts.{find_payout}
use duevy_be.Withdrawal.Invariant.{IsConsistent, is_closed_unpaid}
use duevy_be.Withdrawal.Preserve.{updated, reversal_of}
use duevy_be.Withdrawal.Escrow.{Phase, Escrow, Step}

abbrev pub row_phase : Option Payout → Phase
row_phase none = Phase.unused
row_phase (some p) =
    if is_closed_unpaid p.status then Phase.returned else Phase.taken p.space_id p.amount

-- What the payouts and the ledger stand for.
abbrev pub escrow_of : Db → Escrow
escrow_of db = record {
  purse = λ s. pos_part (get_space_balance s db.ledger);
  phase = λ id. row_phase (find_payout id db.payouts);
}

pub unmoved : (a b : Db) → a ≡ b → Step (escrow_of b) (escrow_of a)
unmoved a b same = rw same (Step.idle (λ s. refl) (λ i. refl))

-- The phases after an update of the row found under its id.
phase-updated :
    (id : ℕ) (f : Payout → Payout) (p : Payout) (ps : List Payout)
    → ((r : Payout) → (f r).id ≡ r.id)
    → find_payout id ps ≡ some p
    → (i : ℕ)
    → row_phase (find_payout i (updated p.id f ps))
      ≡ (if id == i then row_phase (some (f p)) else row_phase (find_payout i ps))
unfolding find_payout
phase-updated id f p ps keeps there i =
    let law = find_by-update_by (λ (r : Payout). r.id) i p.id f ps keeps in
    let own = find_by-key (λ (r : Payout). r.id) id ps {a = p} there in ground (arith, law, own)

-- A row that is updated within its phase.
phase-kept :
    (id : ℕ) (f : Payout → Payout) (p : Payout) (ps : List Payout)
    → ((r : Payout) → (f r).id ≡ r.id)
    → find_payout id ps ≡ some p
    → row_phase (some (f p)) ≡ row_phase (some p)
    → (i : ℕ) → row_phase (find_payout i (updated p.id f ps)) ≡ row_phase (find_payout i ps)
phase-kept id f p ps keeps there same i = ground (arith, phase-updated id f p ps keeps there i)

-- A transaction that moves a payout within its phase and writes no entry.
pub within-phase :
    (id : ℕ) (f : Payout → Payout) (p : Payout) (a b : Db)
    → ((r : Payout) → (f r).id ≡ r.id)
    → find_payout id a.payouts ≡ some p
    → row_phase (some (f p)) ≡ row_phase (some p)
    → b.payouts ≡ updated p.id f a.payouts
    → b.ledger ≡ a.ledger
    → Step (escrow_of a) (escrow_of b)
within-phase id f p a b keeps there same rows entries =
    Step.idle (λ s. rw entries refl) (λ i. rw rows (phase-kept id f p a.payouts keeps there same i))

-- A credit to a balance that is not negative.
pub purse-credited :
    (e : LedgerEntry) (l : Ledger) (s : ℕ)
    → e.direction ≡ Direction.credit
    → neg_part (get_space_balance s l) ≡ 0
    → pos_part (get_space_balance s (e ∷ l)) ≡ (
        if e.space_id == s
        then e.amount_kobo + pos_part (get_space_balance s l)
        else pos_part (get_space_balance s l))
purse-credited e l s credit solvent = elim (Bool-cases (e.space_id == s)) [
  | inl here ↦
      rw (get_space_balance-cons s e l, here, credit)
        (pos_part-add e.amount_kobo (get_space_balance s l) solvent)
  | inr there ↦ rw (get_space_balance-cons s e l, there) refl
]

-- Money that comes into a space with a balance that is not negative.
purse-restored :
    (p : Payout) (l : Ledger) (s : ℕ)
    → neg_part (get_space_balance s l) ≡ 0
    → pos_part (get_space_balance s (reversal_of p ∷ l)) ≡ (
        if p.space_id == s
        then p.amount + pos_part (get_space_balance s l)
        else pos_part (get_space_balance s l))
purse-restored p l s solvent = purse-credited (reversal_of p) l s refl solvent

-- A transaction that closes a payout and writes its reversal.
pub gives_back :
    (id : ℕ) (f : Payout → Payout) (p : Payout) (a b : Db)
    → IsConsistent a.payouts a.ledger
    → ((r : Payout) → (f r).id ≡ r.id)
    → find_payout id a.payouts ≡ some p
    → is_closed_unpaid p.status ≡ false
    → is_closed_unpaid (f p).status ≡ true
    → b.payouts ≡ updated p.id f a.payouts
    → b.ledger ≡ reversal_of p ∷ a.ledger
    → Step (escrow_of a) (escrow_of b)
gives_back id f p a b c keeps there alive closed rows entries =
    Step.give_back id p.space_id p.amount (ground (arith, there, alive))
      (λ s. rw entries (purse-restored p a.ledger s (c.solvent s)))
      (λ i. rw rows (ground (arith, phase-updated id f p a.payouts keeps there i)))
