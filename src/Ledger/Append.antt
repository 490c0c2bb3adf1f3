-- ===== src/Ledger/Append.antt =====
-- `appendLedgerEntry` of src/services/ledger.service.ts: replays, balances and well-formed ledgers.
use duevy_be.Base.{
  ℕ, ◌<◌, ◌≡◌, ◌⊎◌, refl, Bool, true, false, ◌&&◌, ◌||◌, ◌==◌, if◌then◌else◌, is_some, Option, none,
  some, All, Any, Bool-cases, [], ◌∷◌, inl, inr, arith,
}
use duevy_be.Base.Int.{◌+ℤ◌}
use duevy_be.Base.Results.{ok}
use duevy_be.Store.{LedgerEntry, EntryType}
use duevy_be.Ledger.{
  Ledger, signed_amount, get_space_balance, append_ledger_entry, has_conflict, conflicts, is_entry,
  same_id, expected_direction, same_direction,
}

-- Every entry is positive and on the side of its type, and no two share a unique key.
abbrev pub IsWellFormed : Ledger → Type 0
IsWellFormed [] = Unit
IsWellFormed (e ∷ l) =
    (0 < e.amount_kobo)
    × (same_direction (expected_direction e.entry_type) e.direction ≡ true)
    × (has_conflict e l ≡ false)
    × IsWellFormed l

-- An entry that a replay can be told by: it names a due payment or a payout.
abbrev pub is_keyed : LedgerEntry → Bool
is_keyed e = is_some e.due_payment_id || is_some e.payout_id

conflicts_self : (e : LedgerEntry) → is_keyed e ≡ true → conflicts e e ≡ true
conflicts_self e h = ground arith

-- An answer comes after both guards, from one of the two branches.
pub append_ledger_entry-cases :
    (e : LedgerEntry) (l : Ledger) {inserted : Bool} {l' : Ledger}
    → append_ledger_entry e l ≡ ok (inserted, l')
    → (0 < e.amount_kobo)
      × (same_direction (expected_direction e.entry_type) e.direction ≡ true)
      × (((has_conflict e l ≡ true) × (inserted ≡ false) × (l' ≡ l))
          ⊎ ((has_conflict e l ≡ false) × (inserted ≡ true) × (l' ≡ e ∷ l)))
unfolding append_ledger_entry
append_ledger_entry-cases e l h = ground arith

pub get_space_balance-cons :
    (space : ℕ) (e : LedgerEntry) (l : Ledger)
    → get_space_balance space (e ∷ l) ≡ (
        if e.space_id == space
        then signed_amount e +ℤ get_space_balance space l
        else get_space_balance space l)
unfolding get_space_balance
get_space_balance-cons space e l = refl

-- A second write of the same entry after the first.
append_again :
    (e : LedgerEntry) (l : Ledger)
    → 0 < e.amount_kobo
    → has_conflict e l ≡ true
    → {b : Bool} {l' : Ledger} → append_ledger_entry e l ≡ ok (b, l')
    → append_ledger_entry e l ≡ ok (false, l)
unfolding append_ledger_entry
append_again e l p c h = ground arith

append_after_insert :
    (e : LedgerEntry) (l : Ledger) {b : Bool} {l' : Ledger}
    → append_ledger_entry e l ≡ ok (b, l')
    → is_keyed e ≡ true
    → append_ledger_entry e (e ∷ l) ≡ ok (false, e ∷ l)
unfolding append_ledger_entry has_conflict
append_after_insert e l h k = ground (arith, conflicts_self e k)

-- An entry of the same type for the same due payment, or for the same payout.
abbrev pub IsSame : LedgerEntry → LedgerEntry → Type 0
IsSame e f =
    (e.entry_type ≡ f.entry_type)
    × (((id : ℕ) × (e.due_payment_id ≡ some id) × (f.due_payment_id ≡ some id))
        ⊎ ((id : ℕ) × (e.payout_id ≡ some id) × (f.payout_id ≡ some id)))

conflicts-IsSame : (e f : LedgerEntry) → conflicts e f ≡ true → IsSame e f
conflicts-IsSame e f h = (same_type e.entry_type f.entry_type (ground arith), same_key e f h)
  where
    same_type : (a b : EntryType) → is_entry a b ≡ true → a ≡ b
    same_type a b h = ground arith

    common : (a b : Option ℕ) → same_id a b ≡ true → (id : ℕ) × (a ≡ some id) × (b ≡ some id)
    common none b h = absurd cc
    common (some i) none h = absurd (ground arith)
    common (some i) (some j) h = (i, refl, ground arith)

    same_key :
        (e f : LedgerEntry)
        → conflicts e f ≡ true
        → ((id : ℕ) × (e.due_payment_id ≡ some id) × (f.due_payment_id ≡ some id))
          ⊎ ((id : ℕ) × (e.payout_id ≡ some id) × (f.payout_id ≡ some id))
    same_key e f h = elim (Bool-cases (same_id e.due_payment_id f.due_payment_id)) [
      | inl due ↦ inl (common e.due_payment_id f.due_payment_id due)
      | inr other ↦ inr (common e.payout_id f.payout_id (ground arith))
    ]

IsSame-conflicts : (e f : LedgerEntry) → IsSame e f → conflicts e f ≡ true
IsSame-conflicts e f (t, inl (id, a, b)) = rw (t, a, b) (ground arith)
IsSame-conflicts e f (t, inr (id, a, b)) = rw (t, a, b) (ground arith)

has_conflict-cases :
    (e : LedgerEntry) (l : Ledger)
    → ((has_conflict e l ≡ true) × Any (IsSame e) l)
      ⊎ ((has_conflict e l ≡ false) × All (λ (f : LedgerEntry). ¬ IsSame e f) l)
unfolding has_conflict
has_conflict-cases e [] = inr (refl, tt)
has_conflict-cases e (f ∷ l) = elim (Bool-cases (conflicts e f)) [
  | inl here ↦ inl (ground (arith, here), inl (conflicts-IsSame e f here))
  | inr apart ↦ elim (has_conflict-cases e l) [
    | inl (c, any) ↦ inl (ground (arith, apart, c), inr any)
    | inr (c, all) ↦ inr (
      ground (arith, apart, c),
      ((λ same. ground (arith, apart, IsSame-conflicts e f same)), all),
    )
  ]
]

-- A keyed entry (one that names a due payment or a payout) that is accepted by a well-formed ledger
-- is on the side of its type and positive. It was inserted, and the ledger had no entry of its type
-- for its due payment or payout; or the ledger had one, and is as it was. Each space's balance has
-- moved by the signed amount if the entry was inserted and is the space's, and not at all otherwise.
-- The ledger is still well formed, and writing the same entry again changes nothing.
pub append_ledger_entry_lem :
    (e : LedgerEntry) (l : Ledger) {inserted : Bool} {l' : Ledger}
    → IsWellFormed l
    → is_keyed e ≡ true
    → append_ledger_entry e l ≡ ok (inserted, l')
    → (((inserted ≡ true) × All (λ (f : LedgerEntry). ¬ IsSame e f) l × (l' ≡ e ∷ l))
        ⊎ ((inserted ≡ false) × Any (IsSame e) l × (l' ≡ l)))
      × (0 < e.amount_kobo)
      × (same_direction (expected_direction e.entry_type) e.direction ≡ true)
      × IsWellFormed l'
      × ((space : ℕ)
          → get_space_balance space l' ≡ (
              if inserted && (e.space_id == space)
              then signed_amount e +ℤ get_space_balance space l
              else get_space_balance space l))
      × (append_ledger_entry e l' ≡ ok (false, l'))
append_ledger_entry_lem e l {inserted} {l'} wf k h =
    let (p, d, which) = append_ledger_entry-cases e l h in
    elim which [
      | inl (c, i, same) ↦ (
        elim (has_conflict-cases e l) [
          | inl (_, any) ↦ inr (i, any, same)
          | inr (apart, _) ↦ absurd (ground (arith, c, apart))
        ],
        p,
        d,
        rw same wf,
        λ space. rw (i, same) refl,
        rw same (append_again e l p c h),
      )
      | inr (c, i, new) ↦ (
        elim (has_conflict-cases e l) [
          | inl (there, _) ↦ absurd (ground (arith, c, there))
          | inr (_, all) ↦ inl (i, all, new)
        ],
        p,
        d,
        rw new (p, d, c, wf),
        λ space. rw (i, new) (get_space_balance-cons space e l),
        rw new (append_after_insert e l h k),
      )
    ]
