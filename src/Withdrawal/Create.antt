-- ===== src/Withdrawal/Create.antt =====
-- The transaction of `requestWithdrawal` (src/services/withdrawal.service.ts): what it writes, and the
-- invariant across it.
use duevy_be.Base.{
  ℕ, ◌+◌, ◌≤◌, ◌<◌, ◌≡◌, ◌⊎◌, refl, ◌∙◌, true, false, ◌==◌, holds, if◌then◌else◌, none, some, List,
  [], ◌∷◌, Bool-cases, Option-cases, inl, inr, arith,
}
use duevy_be.Base.Int.{pos_part, neg_part}
use duevy_be.Base.Table.{find_by, find_by-key}
use duevy_be.Base.Results.{ok, is_ok, Result-cases}
use duevy_be.Money.{max_safe_integer, WithdrawalBreakdown, compute_withdrawal, min_payout_kobo}
use duevy_be.Money.Fees.{compute_withdrawal_adds_up}
use duevy_be.StateMachine.{PayoutStatus, payout_active}
use duevy_be.Store.{Db, Payout, LedgerEntry, EntryType, Direction}
use duevy_be.Ledger.{Ledger, get_space_balance}
use duevy_be.Ledger.Balance.{credits, debits, get_space_balance-parts}
use duevy_be.Withdrawal.Payouts.{
  find_payout, find_active, payout_entry, with_breakdown, debit, create_payout, create_tx,
  due_covers, PayoutRequest, new_payout, withdraw_tx, discount_percent, out_of_range,
}
use duevy_be.Withdrawal.Invariant.{
  IsAccounted, IsUnused, IsConsistent, has_conflict-payout, solvent_of_covers, covers_of_solvent,
}
use duevy_be.Withdrawal.Preserve.{IsAccounted-cons, IsUnused-cons}
use duevy_be.Withdrawal.Effects.{append_new}

-- A row as a request makes it.
pub record IsNew (p : Payout) : Type 0 where
  pub adds_up : p.amount ≡ p.net_kobo + p.fee_kobo
  pub sends : 0 < p.net_kobo
  pub safe : p.amount ≤ max_safe_integer
  pub waits : (p.status ≡ PayoutStatus.awaiting_approval) ⊎ (p.status ≡ PayoutStatus.pending)
  pub active : p.active_space_id ≡ some p.space_id

abbrev pub net_entry : Payout → LedgerEntry
net_entry p = with_breakdown p (payout_entry p EntryType.payout Direction.debit p.net_kobo)

abbrev pub fee_entry : Payout → LedgerEntry
fee_entry p = payout_entry p EntryType.payout_fee Direction.debit p.fee_kobo

-- The ledger after both debits: a free withdrawal has no fee entry.
abbrev pub debited : Payout → Ledger → Ledger
debited p l = if p.fee_kobo == 0 then net_entry p ∷ l else fee_entry p ∷ net_entry p ∷ l

debit_lem :
    (p : Payout) (db : Db)
    → IsNew p
    → IsUnused p.id db.ledger
    → debit p db ≡ (ok tt, record db { ledger = debited p db.ledger })
unfolding debit
debit_lem p db n u =
    let mid = record db { ledger = net_entry p ∷ db.ledger } in
    let first =
      append_new (net_entry p) db n.sends (omega (arith, n.adds_up, n.safe)) refl
        (has_conflict-payout (net_entry p) p.id db.ledger refl refl ∙ u.no_payout) in
    elim (Bool-cases (p.fee_kobo == 0)) [
      | inl free ↦ ground (arith, first)
      | inr paid ↦ ground (
        arith,
        first,
        append_new (fee_entry p) mid (ground arith) (omega (arith, n.adds_up, n.safe)) refl
            (has_conflict-payout (fee_entry p) p.id mid.ledger refl refl ∙ u.no_fee),
      )
    ]

-- A request changes nothing, or all of its guards held and it wrote the row and its debits.
pub create_tx-cases :
    (p : Payout) (db : Db)
    → IsConsistent db.payouts db.ledger
    → IsNew p
    → (((create_tx p db).1 ≡ db) × (is_ok (create_tx p db).0 ≡ false))
      ⊎ ((find_active p.space_id db.payouts ≡ none)
          × (p.amount ≤ pos_part (get_space_balance p.space_id db.ledger))
          × (due_covers p.due_id p db ≡ true)
          × (find_payout p.id db.payouts ≡ none)
          × (create_tx p db
              ≡ (ok p, record db { payouts = p ∷ db.payouts; ledger = debited p db.ledger })))
unfolding create_tx create_payout
create_tx-cases p db c n = elim (Option-cases (find_payout p.id db.payouts)) [
  | inr (q, clash) ↦ inl (ground arith, ground arith)
  | inl fresh ↦
      ground (arith, debit_lem p (record db { payouts = p ∷ db.payouts }) n (c.unused p.id fresh))
]

IsAccounted-debited :
    (p q : Payout) (l : Ledger)
    → IsAccounted q l
    → holds q.id (some p.id) ≡ false
    → IsAccounted q (debited p l)
IsAccounted-debited p q l a h = elim (Bool-cases (p.fee_kobo == 0)) [
  | inl free ↦ rw free (IsAccounted-cons q (net_entry p) l a h)
  | inr paid ↦ rw paid (
      IsAccounted-cons q (fee_entry p) (net_entry p ∷ l) (IsAccounted-cons q (net_entry p) l a h) h)
]

IsUnused-debited :
    (p : Payout) (id : ℕ) (l : Ledger)
    → IsUnused id l
    → holds id (some p.id) ≡ false
    → IsUnused id (debited p l)
IsUnused-debited p id l u h = elim (Bool-cases (p.fee_kobo == 0)) [
  | inl free ↦ rw free (IsUnused-cons id (net_entry p) l u h)
  | inr paid ↦
      rw paid
        (IsUnused-cons id (fee_entry p) (net_entry p ∷ l) (IsUnused-cons id (net_entry p) l u h) h)
]

IsAccounted-new :
    (p : Payout) (l : Ledger) → IsNew p → IsUnused p.id l → IsAccounted p (debited p l)
IsAccounted-new p l n u = record {
  adds_up = n.adds_up;
  sends = n.sends;
  safe = n.safe;
  debited = ground (arith, n.adds_up, u.no_debit);
  restored = ground (arith, n.waits, u.no_credit);
  reversal = ground (arith, n.waits, u.no_reversal);
  active = unfold payout_active in ground (arith, n.waits, n.active);
}

-- A space with no active payout: no row blocks it.
find_active-none :
    (s i : ℕ) (q : Payout) (ps : List Payout)
    → find_active s ps ≡ none
    → find_payout i ps ≡ some q
    → q.active_space_id ≡ some s
    → ⊥
unfolding find_active find_payout find_by
find_active-none s i q [] h f a = cc
find_active-none s i q (p ∷ ps) h f a = ground (arith, find_active-none s i q ps)

pub find_payout-cons :
    (j : ℕ) (p : Payout) (ps : List Payout)
    → find_payout j (p ∷ ps) ≡ (if p.id == j then some p else find_payout j ps)
unfolding find_payout find_by
find_payout-cons j p ps = refl

-- A row found under another id than the new one has another id.
new_id :
    (ps : List Payout) (id : ℕ) (q p : Payout)
    → (p.id == id) ≡ false
    → find_payout id ps ≡ some q
    → holds q.id (some p.id) ≡ false
unfolding find_payout
new_id ps id q p h f = ground (arith, find_by-key (λ (r : Payout). r.id) id ps {a = q} f)

debited_covers :
    (s : ℕ) (p : Payout) (l : Ledger)
    → IsNew p
    → p.amount ≤ pos_part (get_space_balance p.space_id l)
    → debits s l ≤ credits s l
    → neg_part (get_space_balance p.space_id l) ≡ 0
    → debits s (debited p l) ≤ credits s (debited p l)
debited_covers s p l n fits covers solvent =
    ground (arith, get_space_balance-parts p.space_id l, n.adds_up)

pub created-IsConsistent :
    (p : Payout) (ps : List Payout) (l : Ledger)
    → IsConsistent ps l
    → IsNew p
    → find_active p.space_id ps ≡ none
    → p.amount ≤ pos_part (get_space_balance p.space_id l)
    → find_payout p.id ps ≡ none
    → IsConsistent (p ∷ ps) (debited p l)
created-IsConsistent p ps l c n quiet fits fresh = record {
  accounted = λ id q h. elim (Bool-cases (p.id == id)) [
    | inl mine ↦
        let is : q ≡ p = ground (arith, find_payout-cons id p ps) in
        rw is (IsAccounted-new p l n (c.unused p.id fresh))
    | inr other ↦
        let there : find_payout id ps ≡ some q = ground (arith, find_payout-cons id p ps) in
        IsAccounted-debited p q l (c.accounted id q there) (new_id ps id q p other there)
  ];
  unused = λ id h.
      let there : find_payout id ps ≡ none = ground (arith, find_payout-cons id p ps) in
      IsUnused-debited p id l (c.unused id there) (ground (arith, find_payout-cons id p ps));
  one_active = λ i j s q r hi hj ai aj. ground (
    arith,
    find_payout-cons i p ps,
    find_payout-cons j p ps,
    find_active-none p.space_id i q ps quiet,
    find_active-none p.space_id j r ps quiet,
    c.one_active i j s q r,
  );
  solvent = λ s.
      solvent_of_covers s (debited p l)
        (debited_covers s p l n fits (covers_of_solvent s l (c.solvent s)) (c.solvent p.space_id));
}

-- A request that is answered has a row that adds up, waits, and blocks its space.
pub new_payout-IsNew :
    (r : PayoutRequest) (b : WithdrawalBreakdown)
    → min_payout_kobo ≤ r.amount_kobo
    → r.amount_kobo ≤ max_safe_integer
    → compute_withdrawal r.amount_kobo (discount_percent r.partner) ≡ ok b
    → IsNew (new_payout r b)
new_payout-IsNew r b low high e =
    let facts = compute_withdrawal_adds_up r.amount_kobo (discount_percent r.partner) low e in
    record {
      adds_up = facts.1;
      sends = omega (arith, facts.4);
      safe = omega (arith, facts.0);
      waits = ground arith;
      active = refl;
    }

pub create_tx-IsConsistent :
    (p : Payout) (db : Db)
    → IsConsistent db.payouts db.ledger
    → IsNew p
    → let after = (create_tx p db).1 in IsConsistent after.payouts after.ledger
create_tx-IsConsistent p db c n = elim (create_tx-cases p db c n) [
  | inl (same, _) ↦ rw same c
  | inr (quiet, fits, _, fresh, done) ↦
      rw done (created-IsConsistent p db.payouts db.ledger c n quiet fits fresh)
]

-- A request below the minimum, past the safe integers or with no breakdown changes nothing; any
-- other comes to the transaction.
pub withdraw_tx-cases :
    (r : PayoutRequest) (db : Db)
    → (((withdraw_tx r db).1 ≡ db) × (is_ok (withdraw_tx r db).0 ≡ false))
      ⊎ ((b : WithdrawalBreakdown) × (min_payout_kobo ≤ r.amount_kobo)
          × (r.amount_kobo ≤ max_safe_integer)
          × (compute_withdrawal r.amount_kobo (discount_percent r.partner) ≡ ok b)
          × (withdraw_tx r db ≡ create_tx (new_payout r b) db))
unfolding withdraw_tx
withdraw_tx-cases r db = elim (Bool-cases (out_of_range r.amount_kobo)) [
  | inl refused ↦ inl (ground arith, ground arith)
  | inr fits ↦ elim (Result-cases (compute_withdrawal r.amount_kobo (discount_percent r.partner))) [
    | inr (e, no_answer) ↦ inl (ground arith, ground arith)
    | inl (b, answer) ↦ inr (b, ground arith, ground arith, answer, ground arith)
  ]
]

pub withdraw_tx-IsConsistent :
    (r : PayoutRequest) (db : Db)
    → IsConsistent db.payouts db.ledger
    → let after = (withdraw_tx r db).1 in IsConsistent after.payouts after.ledger
withdraw_tx-IsConsistent r db c = elim (withdraw_tx-cases r db) [
  | inl (same, _) ↦ rw same c
  | inr (b, low, high, e, done) ↦
      rw done (create_tx-IsConsistent (new_payout r b) db c (new_payout-IsNew r b low high e))
]
