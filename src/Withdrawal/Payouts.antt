-- ===== src/Withdrawal/Payouts.antt =====
-- The transactions of src/services/withdrawal.service.ts that create a payout, move its status and
-- write the ledger.
use duevy_be.Base.{
  ℕ, Bool, true, false, ◌&&◌, ◌||◌, ◌==◌, leb, ltb, not, holds, keep, find?, if◌then◌else◌, Option,
  none, some, List, [], ◌∷◌,
}
use duevy_be.Base.Int.{ℤ, pos, ltb_ℤ}
use duevy_be.Base.Results.{ok, err, app_error, plain_error, unique_violation, Code}
use duevy_be.Base.Table.{find_by, update_by, map_option}
use duevy_be.Money.{WithdrawalBreakdown, max_safe_integer, min_payout_kobo, compute_withdrawal}
use duevy_be.StateMachine.{PayoutStatus, can_transition_payout, assert_payout_transition, is_payout}
use duevy_be.Store.{
  Db, Payout, LedgerEntry, EntryType, Direction, Due, SpaceRep, RepRole, PayoutOtp,
}
use duevy_be.Store.Action.{
  Action, pure, gets, lift, or_raise, ◌>>=◌, ◌>>◌, raise_if, modify, when, transaction,
}
use duevy_be.Ledger.{append_ledger_entry, get_space_balance, get_due_availability, available_of}

-- `findUnique({ where: { id } })` and `update` on payouts.
unfoldable pub find_payout : ℕ → List Payout → Option Payout
find_payout = find_by (λ p. p.id)

unfoldable pub update_payout : ℕ → (Payout → Payout) → Action (Unit {0})
update_payout id f =
    modify (λ db. record db { payouts = update_by (λ (p : Payout). p.id) id f db.payouts })

-- `findUnique({ where: { reference } })`
unfoldable pub find_reference : ℕ → List Payout → Option Payout
find_reference = find_by (λ p. p.reference)

-- `findUnique({ where: { activeSpaceId } })`
unfoldable pub find_active : ℕ → List Payout → Option Payout
find_active space [] = none
find_active space (p ∷ ps) =
    let rest = find_active space ps in if holds space p.active_space_id then some p else rest

-- `appendLedgerEntry`, whose answer none of these callers reads.
unfoldable pub append : LedgerEntry → Action (Unit {0})
append e db = elim (append_ledger_entry e db.ledger) [
  | ok (_, ledger) ↦ (ok tt, record db { ledger = ledger })
  | err x ↦ (err x, db)
]

abbrev pub payout_entry : Payout → EntryType → Direction → ℕ → LedgerEntry
payout_entry p type direction amount = record {
  space_id = p.space_id;
  due_id = p.due_id;
  txn_id = none;
  due_payment_id = none;
  payout_id = some p.id;
  entry_type = type;
  direction = direction;
  amount_kobo = amount;
  gross_kobo = none;
  fee_kobo = none;
  net_kobo = none;
  reference = p.reference;
}

abbrev pub with_breakdown : Payout → LedgerEntry → LedgerEntry
with_breakdown p e = record e {
  gross_kobo = some p.amount;
  fee_kobo = some p.fee_kobo;
  net_kobo = some p.net_kobo;
}

unfoldable pub debit : Payout → Action (Unit {0})
debit p = do
  append (with_breakdown p (payout_entry p EntryType.payout Direction.debit p.net_kobo))
  when (not (p.fee_kobo == 0))
      (append (payout_entry p EntryType.payout_fee Direction.debit p.fee_kobo))

unfoldable pub restore_balance : Payout → Action (Unit {0})
restore_balance p =
    append (with_breakdown p (payout_entry p EntryType.payout_reversal Direction.credit p.amount))

-- `FOR UPDATE` and `findUniqueOrThrow`: one transaction at a time works on the row.
unfoldable pub lock_payout : ℕ → Action Payout
unfolding find_payout
lock_payout id = do or_raise (← gets (λ db. find_payout id db.payouts)) plain_error

-- A unique index holds already.
abbrev pub taken {ℓ} : {A : Type ℓ} → Option A → Bool
taken none = false
taken (some _) = true

-- `tx.payout.create`, refused by the unique keys on the id, the reference and activeSpaceId.
unfoldable pub create_payout : Payout → Action (Unit {0})
unfolding find_payout find_reference find_active
create_payout p db =
    if taken (find_payout p.id db.payouts)
      || taken (find_reference p.reference db.payouts)
      || taken (find_active p.space_id db.payouts)
    then (err unique_violation, db)
    else (ok tt, record db { payouts = p ∷ db.payouts })

abbrev pub is_lead : RepRole → Bool
is_lead RepRole.lead = true
is_lead RepRole.co = false

-- `spaceRep.findFirst({ where: { spaceId, role: 'lead' } })`
unfoldable pub lead_of : ℕ → List SpaceRep → Option ℕ
lead_of space reps =
    map_option (λ (r : SpaceRep). r.user_id)
      (find? (λ (r : SpaceRep). r.space_id == space && is_lead r.role) reps)

-- What is left of one due, `(await getDueAvailability(spaceId, tx)).get(due.id) ?? 0`.
unfoldable pub due_available : ℕ → ℕ → Db → ℕ
unfolding get_due_availability available_of lead_of
due_available space due db = available_of due (
    get_due_availability space (keep (λ (d : Due). d.space_id == space) db.dues)
      (lead_of space db.reps) db.ledger)

-- `if (due) { … INSUFFICIENT_BALANCE … }`
unfoldable pub due_covers : Option ℕ → Payout → Db → Bool
unfolding due_available
due_covers none p db = true
due_covers (some due) p db = leb p.amount (due_available p.space_id due db)

-- The transaction of `requestWithdrawal`: the row `p` carries the breakdown, the status and the
-- destination that were fixed before it.
unfoldable pub create_tx : Payout → Action Payout
create_tx p = transaction do
  active ← gets (λ db. find_active p.space_id db.payouts)
  raise_if (taken active) (app_error 409 Code.withdrawal_in_progress)
  balance ← gets (λ db. get_space_balance p.space_id db.ledger)
  raise_if (ltb_ℤ balance (pos p.amount)) (app_error 422 Code.insufficient_balance)
  covered ← gets (due_covers p.due_id p)
  raise_if (not covered) (app_error 422 Code.insufficient_balance)
  create_payout p
  debit p
  pure p

-- `dispatchPayout`: the provider has taken the payout; nothing happens unless it is still pending.
unfoldable pub processing_tx : ℕ → Option ℕ → Option ℕ → Action (Unit {0})
processing_tx id provider_payout_id provider_fee = transaction do
  p ← lock_payout id
  when (is_payout p.status PayoutStatus.pending) do
    lift (assert_payout_transition PayoutStatus.pending PayoutStatus.processing)
    update_payout p.id (λ r. record r {
      status = PayoutStatus.processing;
      provider_payout_id = provider_payout_id;
      provider_fee_kobo = provider_fee;
    })

-- `...(providerFeeKobo != null ? { providerFeeKobo } : {})`
abbrev pub or_keep : Option ℕ → Option ℕ → Option ℕ
or_keep none old = old
or_keep (some n) old = some n

-- The transaction of `completePayout`; the answer is the id of a payout that it completed.
unfoldable pub complete_tx : ℕ → Option ℕ → Action (Option ℕ)
complete_tx reference provider_fee = transaction do
  found ← gets (λ db. find_reference reference db.payouts)
  elim found [
    | none ↦ pure none
    | some f ↦ do
      p ← lock_payout f.id
      if can_transition_payout p.status PayoutStatus.success
          then (do
            update_payout p.id (λ r. record r {
              status = PayoutStatus.success;
              active_space_id = none;
              provider_fee_kobo = or_keep provider_fee r.provider_fee_kobo;
            })
            pure (some p.id))
          else pure none
  ]

-- Where a payout goes when the bank says no: `p.status === 'success' ? 'reversed' : 'failed'`.
abbrev pub failed_status : PayoutStatus → PayoutStatus
failed_status PayoutStatus.success = PayoutStatus.reversed
failed_status _ = PayoutStatus.failed

-- The transaction of `failPayout`; the answer is the row as it was, if it failed now.
unfoldable pub fail_tx : ℕ → Action (Option Payout)
fail_tx id = transaction do
  p ← lock_payout id
  if can_transition_payout p.status (failed_status p.status)
      then (do
        update_payout p.id
            (λ r. record r { status = failed_status p.status; active_space_id = none })
        restore_balance p
        pure (some p))
      else pure none

-- The transaction of `cancelPayout`.
unfoldable pub cancel_tx : ℕ → Action Bool
cancel_tx id = transaction do
  p ← lock_payout id
  if can_transition_payout p.status PayoutStatus.cancelled
      then (do
        update_payout p.id (λ r. record r {
          status = PayoutStatus.cancelled;
          active_space_id = none;
          approval_expires_at = none;
        })
        restore_balance p
        modify
            (λ db. record db { otps = keep (λ (o : PayoutOtp). not (o.payout_id == p.id)) db.otps })
        pure true)
      else pure false

-- The update of `approvePayout` once enough signatories have approved.
unfoldable pub release_tx : ℕ → Action (Unit {0})
release_tx id = do
  lift (assert_payout_transition PayoutStatus.awaiting_approval PayoutStatus.pending)
  update_payout id (λ r. record r { status = PayoutStatus.pending; approval_expires_at = none })

-- The update of `settleWithdrawalFee`.
unfoldable pub fee_settled_tx : ℕ → ℕ → ℤ → Action (Unit {0})
fee_settled_tx id now amount =
    update_payout id
      (λ r. record r { fee_settled_at = some now; fee_settlement_kobo = some amount })

-- The row that `requestWithdrawal` writes, from what it has worked out.
pub record PayoutRequest : Type 0 where
  pub id : ℕ
  pub reference : ℕ
  pub space_id : ℕ
  pub user_id : ℕ
  pub due_id : Option ℕ
  pub amount_kobo : ℕ
  -- The active redemption of the space: its id and its percentage.
  pub partner : Option (ℕ × ℕ)
  -- `needsApproval`, with the end of the approval window.
  pub approval_expires_at : Option ℕ
  pub beneficiary_id : Option ℕ
  pub destination_id : ℕ
  pub account_id : ℕ

abbrev pub discount_percent : Option (ℕ × ℕ) → ℕ
discount_percent none = 0
discount_percent (some (_, percent)) = percent

abbrev pub redemption_if : Bool → Option (ℕ × ℕ) → Option ℕ
redemption_if true (some (id, _)) = some id
redemption_if _ _ = none

abbrev pub new_payout : PayoutRequest → WithdrawalBreakdown → Payout
new_payout r b = record {
  id = r.id;
  space_id = r.space_id;
  due_id = r.due_id;
  amount = b.gross;
  fee_kobo = b.fee;
  net_kobo = b.net;
  fee_discount_kobo = b.discount;
  partner_redemption_id = redemption_if (ltb 0 b.discount) r.partner;
  reference = r.reference;
  status =
      if taken r.approval_expires_at then PayoutStatus.awaiting_approval else PayoutStatus.pending;
  active_space_id = some r.space_id;
  approval_expires_at = r.approval_expires_at;
  requested_by_id = some r.user_id;
  beneficiary_id = r.beneficiary_id;
  destination_id = some r.destination_id;
  provider_account_id = some r.account_id;
  provider_payout_id = none;
  provider_fee_kobo = none;
  fee_settled_at = none;
  fee_settlement_kobo = none;
}

-- `!Number.isSafeInteger(amountKobo) || amountKobo < MIN_PAYOUT_KOBO`
abbrev pub out_of_range : ℕ → Bool
out_of_range amount = not (leb amount max_safe_integer) || ltb amount min_payout_kobo

-- The minimum, the breakdown and the transaction of `requestWithdrawal`.
unfoldable pub withdraw_tx : PayoutRequest → Action Payout
withdraw_tx r = do
  raise_if (out_of_range r.amount_kobo) (app_error 422 Code.below_min_payout)
  b ← lift (compute_withdrawal r.amount_kobo (discount_percent r.partner))
  create_tx (new_payout r b)
