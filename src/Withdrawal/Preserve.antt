-- ===== src/Withdrawal/Preserve.antt =====
-- The invariant under the two kinds of change that the transactions make to a payout that is there:
-- a status that moves no money, and one that gives the money back.
use duevy_be.Base.{
  ℕ, ◌≤◌, ◌≡◌, ◌⊎◌, refl, ◌∙◌, true, false, ◌==◌, holds, if◌then◌else◌, none, some, List, ◌∷◌,
  Bool-cases, Option-cases, inl, inr, arith, ==→eq,
}
use duevy_be.Base.Table.{find_by, update_by, find_by-update_by, find_by-key}
use duevy_be.StateMachine.{payout_active}
use duevy_be.Store.{Payout, LedgerEntry, EntryType, Direction}
use duevy_be.Ledger.{Ledger}
use duevy_be.Ledger.Balance.{credits, debits}
use duevy_be.Withdrawal.Payouts.{find_payout, payout_entry, with_breakdown}
use duevy_be.Withdrawal.Invariant.{
  IsAccounted, IsUnused, IsConsistent, is_closed_unpaid, solvent_of_covers, covers_of_solvent,
}

abbrev pub updated : ℕ → (Payout → Payout) → List Payout → List Payout
updated = update_by (λ (p : Payout). p.id)

-- The update leaves the money columns alone.
pub record KeepsMoney (f : Payout → Payout) : Type 0 where
  pub id : (r : Payout) → (f r).id ≡ r.id
  pub space_id : (r : Payout) → (f r).space_id ≡ r.space_id
  pub amount : (r : Payout) → (f r).amount ≡ r.amount
  pub fee_kobo : (r : Payout) → (f r).fee_kobo ≡ r.fee_kobo
  pub net_kobo : (r : Payout) → (f r).net_kobo ≡ r.net_kobo

module _ (ps : List Payout) (f : Payout → Payout) (m : KeepsMoney f) where
  -- A row found after the update is an updated row, or it was there before.
  pub find-updated :
      (id k : ℕ) (q : Payout)
      → find_payout id (updated k f ps) ≡ some q
      → ((r : Payout) × (k ≡ id) × (find_payout id ps ≡ some r) × (q ≡ f r))
        ⊎ (((k == id) ≡ false) × (find_payout id ps ≡ some q))
  unfolding find_payout
  find-updated id k q h =
      let law = find_by-update_by (λ (p : Payout). p.id) id k f ps m.id in
      elim (Option-cases (find_by (λ (p : Payout). p.id) id ps)) [
        | inl gone ↦ absurd (ground (arith, law))
        | inr (r, there) ↦ elim (Bool-cases (k == id)) [
          | inl same ↦ inl (r, ==→eq k id same, there, ground (arith, law))
          | inr other ↦ inr (other, ground (arith, law))
        ]
      ]

  pub find-updated-none :
      (id k : ℕ) → find_payout id (updated k f ps) ≡ none → find_payout id ps ≡ none
  unfolding find_payout
  find-updated-none id k h =
      let law = find_by-update_by (λ (p : Payout). p.id) id k f ps m.id in
      elim (Option-cases (find_by (λ (p : Payout). p.id) id ps)) [
        | inl gone ↦ gone
        | inr (r, there) ↦ ground (arith, law)
      ]

  -- What the update does to the column activeSpaceId: it stays, or it is cleared.
  abbrev ClearsOrKeeps : Type 0
  ClearsOrKeeps =
      (r : Payout) → ((f r).active_space_id ≡ r.active_space_id) ⊎ ((f r).active_space_id ≡ none)

  one_active-updated :
      (k : ℕ) (l : Ledger)
      → IsConsistent ps l
      → ClearsOrKeeps
      → (i s : ℕ) (p : Payout) → find_payout i (updated k f ps) ≡ some p
      → p.active_space_id ≡ some s
      → (q : Payout) × (find_payout i ps ≡ some q) × (q.active_space_id ≡ some s)
  one_active-updated k l c keeps i s p h a = elim (find-updated i k p h) [
    | inr (_, same) ↦ (p, same, a)
    | inl (r, _, there, e) ↦ elim (keeps r) [
      | inl kept ↦ (r, there, ground (arith, kept))
      | inr cleared ↦ ground (arith, cleared)
    ]
  ]

-- The updated row is accounted for by the same ledger, if it is on the same side of being restored.
IsAccounted-moved :
    (f : Payout → Payout) (m : KeepsMoney f) (r : Payout) (l : Ledger)
    → IsAccounted r l
    → is_closed_unpaid (f r).status ≡ is_closed_unpaid r.status
    → (f r).active_space_id ≡ (if payout_active (f r).status then some r.space_id else none)
    → IsAccounted (f r) l
IsAccounted-moved f m r l a closed active = record {
  adds_up = rw (m.amount r, m.net_kobo r, m.fee_kobo r) a.adds_up;
  sends = rw (m.net_kobo r) a.sends;
  safe = rw (m.amount r) a.safe;
  debited = rw (m.id r, m.amount r) a.debited;
  restored = rw (m.id r, m.amount r, closed) a.restored;
  reversal = rw (m.id r, closed) a.reversal;
  active = rw (m.space_id r) active;
}

-- A change of status that moves no money.
pub moved-IsConsistent :
    (ps : List Payout) (l : Ledger) (f : Payout → Payout) (m : KeepsMoney f) (k : ℕ) (p : Payout)
    → IsConsistent ps l
    → find_payout k ps ≡ some p
    → ((r : Payout) → ((f r).active_space_id ≡ r.active_space_id) ⊎ ((f r).active_space_id ≡ none))
    → is_closed_unpaid (f p).status ≡ is_closed_unpaid p.status
    → (f p).active_space_id ≡ (if payout_active (f p).status then some p.space_id else none)
    → IsConsistent (updated k f ps) l
moved-IsConsistent ps l f m k p c found keeps closed active = record {
  accounted = λ id q h. elim (find-updated ps f m id k q h) [
    | inr (_, same) ↦ c.accounted id q same
    | inl (r, e, there, is) ↦
        let one : r ≡ p = ground arith in
        rw (is, one) (IsAccounted-moved f m p l (c.accounted k p found) closed active)
  ];
  unused = λ id h. c.unused id (find-updated-none ps f m id k h);
  one_active = λ i j s p' q' hi hj ai aj.
      let (p₀, fi, bi) = one_active-updated ps f m k l c keeps i s p' hi ai in
      let (q₀, fj, bj) = one_active-updated ps f m k l c keeps j s q' hj aj in
      c.one_active i j s p₀ q₀ fi fj bi bj;
  solvent = c.solvent;
}

-- The entry that gives a withdrawal back.
abbrev pub reversal_of : Payout → LedgerEntry
reversal_of p =
    with_breakdown p (payout_entry p EntryType.payout_reversal Direction.credit p.amount)

pub IsAccounted-cons :
    (q : Payout) (e : LedgerEntry) (l : Ledger)
    → IsAccounted q l
    → holds q.id e.payout_id ≡ false
    → IsAccounted q (e ∷ l)
IsAccounted-cons q e l a h = record {
  adds_up = a.adds_up;
  sends = a.sends;
  safe = a.safe;
  debited = rw h (omega (arith, a.debited));
  restored = rw h (rw (← a.restored) (omega arith));
  reversal = ground (arith, a.reversal);
  active = a.active;
}

pub IsUnused-cons :
    (id : ℕ) (e : LedgerEntry) (l : Ledger)
    → IsUnused id l
    → holds id e.payout_id ≡ false
    → IsUnused id (e ∷ l)
IsUnused-cons id e l u h = ground arith

IsAccounted-restored :
    (f : Payout → Payout) (m : KeepsMoney f) (p : Payout) (l : Ledger)
    → IsAccounted p l
    → is_closed_unpaid p.status ≡ false
    → is_closed_unpaid (f p).status ≡ true
    → (f p).active_space_id ≡ none
    → payout_active (f p).status ≡ false
    → IsAccounted (f p) (reversal_of p ∷ l)
IsAccounted-restored f m p l a alive gone cleared inactive = record {
  adds_up = rw (m.amount p, m.net_kobo p, m.fee_kobo p) a.adds_up;
  sends = rw (m.net_kobo p) a.sends;
  safe = rw (m.amount p) a.safe;
  debited = ground (arith, m.id p, m.amount p, a.debited);
  restored = ground (arith, m.id p, m.amount p, a.restored);
  reversal = ground (arith, m.id p);
  active = rw (cleared, inactive);
}

-- The row that is found has the id, so rows found under two ids have two ids.
elsewhere :
    (ps : List Payout) (id k : ℕ) (q p : Payout)
    → (k == id) ≡ false
    → find_payout id ps ≡ some q
    → find_payout k ps ≡ some p
    → holds q.id (some p.id) ≡ false
unfolding find_payout
elsewhere ps id k q p h a b = ground (
  arith,
  find_by-key (λ (r : Payout). r.id) id ps {a = q} a,
  find_by-key (λ (r : Payout). r.id) k ps {a = p} b,
)

absent :
    (ps : List Payout) (id k : ℕ) (p : Payout)
    → find_payout id ps ≡ none
    → find_payout k ps ≡ some p
    → holds id (some p.id) ≡ false
unfolding find_payout
absent ps id k p a b = elim (Bool-cases (id == p.id)) [
  | inr no_hit ↦ no_hit
  | inl hit ↦
      let there = find_by-key (λ (r : Payout). r.id) k ps {a = p} b in
      let same : id ≡ k = ==→eq id p.id hit ∙ there in cc
]

-- A credit leaves every space as solvent as it was.
pub credit_covers :
    (s : ℕ) (e : LedgerEntry) (l : Ledger)
    → e.direction ≡ Direction.credit
    → debits s l ≤ credits s l
    → debits s (e ∷ l) ≤ credits s (e ∷ l)
credit_covers s e l h k = ground arith

-- A change of status that gives the money back, with its entry.
pub restored-IsConsistent :
    (ps : List Payout) (l : Ledger) (f : Payout → Payout) (m : KeepsMoney f) (k : ℕ) (p : Payout)
    → IsConsistent ps l
    → find_payout k ps ≡ some p
    → ((r : Payout) → (f r).active_space_id ≡ none)
    → is_closed_unpaid p.status ≡ false
    → is_closed_unpaid (f p).status ≡ true
    → payout_active (f p).status ≡ false
    → IsConsistent (updated k f ps) (reversal_of p ∷ l)
restored-IsConsistent ps l f m k p c found clears alive gone inactive = record {
  accounted = λ id q h. elim (find-updated ps f m id k q h) [
    | inr (other, same) ↦
        IsAccounted-cons q (reversal_of p) l (c.accounted id q same)
          (elsewhere ps id k q p other same found)
    | inl (r, e, there, is) ↦
        let one : r ≡ p = ground arith in
        rw (is, one)
          (IsAccounted-restored f m p l (c.accounted k p found) alive gone (clears p) inactive)
  ];
  unused = λ id h.
      let none_there = find-updated-none ps f m id k h in
      IsUnused-cons id (reversal_of p) l (c.unused id none_there)
        (absent ps id k p none_there found);
  one_active = λ i j s p' q' hi hj ai aj.
      let keeps : (r : Payout)
          → ((f r).active_space_id ≡ r.active_space_id) ⊎ ((f r).active_space_id ≡ none) =
        λ r. inr (clears r) in
      let (p₀, fi, bi) = one_active-updated ps f m k l c keeps i s p' hi ai in
      let (q₀, fj, bj) = one_active-updated ps f m k l c keeps j s q' hj aj in
      c.one_active i j s p₀ q₀ fi fj bi bj;
  solvent = λ s.
      solvent_of_covers s (reversal_of p ∷ l)
        (credit_covers s (reversal_of p) l refl (covers_of_solvent s l (c.solvent s)));
}
