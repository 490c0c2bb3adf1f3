-- ===== src/Ledger.antt =====
-- src/services/ledger.service.ts: the append-only ledger of the spaces. The ledger is the list of its
-- entries, newest first; an operation gets it and returns it, as the transaction does.
pub mod Append
pub mod Balance
pub mod Availability
pub mod Summary
use duevy_be.Base.{
  ℕ, ◌+◌, ◌-◌, min, Bool, true, false, ◌&&◌, ◌||◌, ltb, leb, ◌==◌, holds, not, if◌then◌else◌,
  Option, none, some, List, [], ◌∷◌, sum_by,
}
use duevy_be.Base.Int.{ℤ, pos, pos_part, neg_part, ◌+ℤ◌, ◌-ℤ◌}
use duevy_be.Base.Results.{Result, ok, err, range_error, plain_error, ◌>>=◌, ◌>>◌, guard, throw_if}
use duevy_be.Money.{max_safe_integer}
use duevy_be.Store.{LedgerEntry, EntryType, Direction, Due}

abbrev pub Ledger : Type 0
Ledger = List LedgerEntry

abbrev entry_tag : EntryType → ℕ
entry_tag EntryType.due_payment = 0
entry_tag EntryType.refund = 1
entry_tag EntryType.payout = 2
entry_tag EntryType.payout_fee = 3
entry_tag EntryType.payout_reversal = 4
entry_tag EntryType.manual_credit = 5

abbrev pub is_entry : EntryType → EntryType → Bool
is_entry a b = entry_tag a == entry_tag b

abbrev pub is_credit : Direction → Bool
is_credit Direction.credit = true
is_credit Direction.debit = false

-- `CREDIT_TYPES` and `DEBIT_TYPES`: between them they name every type.
abbrev pub expected_direction : EntryType → Direction
expected_direction EntryType.due_payment = Direction.credit
expected_direction EntryType.manual_credit = Direction.credit
expected_direction EntryType.payout_reversal = Direction.credit
expected_direction EntryType.payout = Direction.debit
expected_direction EntryType.payout_fee = Direction.debit
expected_direction EntryType.refund = Direction.debit

abbrev pub same_direction : Direction → Direction → Bool
same_direction a b = if is_credit a then is_credit b else not (is_credit b)

-- `NULL` never equals anything in a unique index.
abbrev pub same_id : Option ℕ → Option ℕ → Bool
same_id none b = false
same_id (some j) b = holds j b

-- The unique keys (type, duePaymentId) and (type, payoutId).
abbrev pub conflicts : LedgerEntry → LedgerEntry → Bool
conflicts e f =
    is_entry e.entry_type f.entry_type
    && (same_id e.due_payment_id f.due_payment_id || same_id e.payout_id f.payout_id)

unfoldable pub has_conflict : LedgerEntry → Ledger → Bool
has_conflict e [] = false
has_conflict e (f ∷ l) = let rest = has_conflict e l in if conflicts e f then true else rest

-- The answer says whether a row was inserted (`ON CONFLICT DO NOTHING`).
unfoldable pub append_ledger_entry : LedgerEntry → Ledger → Result (Bool × Ledger)
unfolding has_conflict
append_ledger_entry entry ledger = do
  guard (leb entry.amount_kobo max_safe_integer && ltb 0 entry.amount_kobo) range_error
  guard (same_direction (expected_direction entry.entry_type) entry.direction) plain_error
  ok (if has_conflict entry ledger then (false, ledger) else (true, entry ∷ ledger))

-- `CASE WHEN "direction" = 'credit' THEN "amountKobo" ELSE -"amountKobo" END`
abbrev pub signed : Direction → ℕ → ℤ
signed Direction.credit n = pos n
signed Direction.debit n = pos 0 -ℤ pos n

abbrev pub signed_amount : LedgerEntry → ℤ
signed_amount e = signed e.direction e.amount_kobo

-- `SUM … WHERE "spaceId" = …`
unfoldable pub get_space_balance : ℕ → Ledger → ℤ
unfolding ◌+ℤ◌ ◌-ℤ◌
get_space_balance space [] = pos 0
get_space_balance space (e ∷ l) =
    let rest = get_space_balance space l in
    if e.space_id == space then signed_amount e +ℤ rest else rest

-- A group of `GROUP BY "dueId"`.
abbrev pub same_group : Option ℕ → Option ℕ → Bool
same_group none none = true
same_group none (some _) = false
same_group (some j) b = holds j b

unfoldable pub net_of : ℕ → Option ℕ → Ledger → ℤ
unfolding ◌+ℤ◌ ◌-ℤ◌
net_of space due [] = pos 0
net_of space due (e ∷ l) =
    let rest = net_of space due l in
    if e.space_id == space && same_group due e.due_id then signed_amount e +ℤ rest else rest

-- `!d.assignedRepId || d.assignedRepId === lead?.userId`
abbrev pub held_by : Option ℕ → Option ℕ → Bool
held_by none lead = true
held_by (some rep) lead = holds rep lead

abbrev pub lead_held : Option ℕ → Due → Bool
lead_held lead d = held_by d.assigned_rep_id lead

abbrev pub older : Due → Due → Bool
older a b = if a.created_at == b.created_at then leb a.id b.id else ltb a.created_at b.created_at

-- The comparator of `order`: dues of the lead first, then the oldest, then by id.
unfoldable pub due_before : Option ℕ → Due → Due → Bool
due_before lead a b =
    if lead_held lead a
    then (if lead_held lead b then older a b else true)
    else (if lead_held lead b then false else older a b)

unfoldable pub insert_due : Option ℕ → Due → List Due → List Due
insert_due lead d [] = d ∷ []
insert_due lead d (e ∷ es) =
    let rest = insert_due lead d es in if due_before lead d e then d ∷ e ∷ es else e ∷ rest

unfoldable pub order_dues : Option ℕ → List Due → List Due
unfolding insert_due due_before
order_dues lead [] = []
order_dues lead (d ∷ ds) = insert_due lead d (order_dues lead ds)

-- The loop that takes the deficit from each due in turn.
unfoldable pub settle : (Due → ℕ) → ℕ → List Due → List (Due × ℕ)
settle own deficit [] = []
settle own deficit (d ∷ ds) =
    let taken = min (own d) deficit in (d, own d - taken) ∷ settle own (deficit - taken) ds

-- `dues` are the space's, `lead` its lead rep. A due's entry is what it can still pay out.
unfoldable pub get_due_availability : ℕ → List Due → Option ℕ → Ledger → List (Due × ℕ)
unfolding net_of order_dues settle
get_due_availability space dues lead ledger =
    let order = order_dues lead dues in
    let deficit =
      neg_part (net_of space none ledger)
      + sum_by (λ d. neg_part (net_of space (some d.id) ledger)) order in
    settle (λ d. pos_part (net_of space (some d.id) ledger)) deficit order

-- `available.get(due.id) ?? 0`
unfoldable pub available_of : ℕ → List (Due × ℕ) → ℕ
available_of due [] = 0
available_of due ((d, n) ∷ rest) =
    let later = available_of due rest in if d.id == due then n else later
