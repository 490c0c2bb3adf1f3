-- ===== src/Checkout/Outcomes.antt =====
-- The outcomes of a checkout in src/services/checkout.service.ts, shared by the webhooks and by
-- reconciliation: `fulfilCheckout`, `markUnderpaid` and `expireCheckout`. The ids that the database
-- draws for the payments, and the receipt's number, are arguments. Emails and notices are left out.
use duevy_be.Base.{
  ℕ, ◌+◌, ◌-◌, max, Bool, true, false, ◌&&◌, ◌||◌, ◌==◌, ltb, not, holds, keep, find?, map,
  if◌then◌else◌, Option, none, some, List, [], ◌∷◌, ◌++◌,
}
use duevy_be.Base.Results.{Result, ok, err, unique_violation, checkout_not_found}
use duevy_be.Base.Table.{find_by, update_by, map_option}
use duevy_be.StateMachine.{
  CheckoutStatus, can_transition_checkout, assert_checkout_transition, is_checkout,
}
use duevy_be.Store.{
  Db, Checkout, CheckoutItem, DuePayment, Transaction, TxnStatus, Receipt, Flag, LedgerEntry,
  EntryType, Direction,
}
use duevy_be.Store.Action.{Action, pure, gets, lift, or_raise, ◌>>=◌, ◌>>◌, modify, transaction}
use duevy_be.Withdrawal.Payouts.{append, taken}

unfoldable pub find_checkout : ℕ → List Checkout → Option Checkout
find_checkout = find_by (λ c. c.id)

unfoldable pub update_checkout : ℕ → (Checkout → Checkout) → Action (Unit {0})
update_checkout id f =
    modify (λ db. record db { checkouts = update_by (λ (c : Checkout). c.id) id f db.checkouts })

-- By our reference, and if that names none by the provider's id.
unfoldable pub find_checkout_id : Option ℕ → Option ℕ → Db → Result ℕ
find_checkout_id reference provider_id db =
    elim (find? (λ (c : Checkout). holds c.reference reference) db.checkouts) [
      | some c ↦ ok c.id
      | none ↦ elim (find? (λ (c : Checkout). same_provider c.provider_checkout_id) db.checkouts) [
        | some c ↦ ok c.id
        | none ↦ err checkout_not_found
      ]
    ]
  where
    same_provider : Option ℕ → Bool
    same_provider none = false
    same_provider (some id) = holds id provider_id

-- `FOR UPDATE`: one outcome at a time works on the row.
unfoldable pub lock_checkout : ℕ → Action Checkout
unfolding find_checkout
lock_checkout id = do or_raise (← gets (λ db. find_checkout id db.checkouts)) checkout_not_found

-- What the transaction of `fulfilCheckout` answers.
pub data Fulfilled : Type 0 where
  paid : List Flag → Fulfilled
  already_paid : List Flag → Fulfilled
  short : ℕ → Fulfilled

pub data FulfilOutcome : Type 0 where
  paid already_paid underpaid : FulfilOutcome

-- `existingByDue.get(dueId)` and the unique key (userId, dueId).
unfoldable pub find_paid : ℕ → ℕ → List DuePayment → Option DuePayment
find_paid user due = find? (λ (p : DuePayment). p.user_id == user && (p.due_id == due))

unfoldable pub find_due_payment : ℕ → List DuePayment → Option DuePayment
find_due_payment = find_by (λ p. p.id)

-- `findUnique({ where: { txnId } })`
abbrev pub is_linked : Option ℕ → List DuePayment → Bool
is_linked none ps = false
is_linked (some txn) ps = taken (find? (λ (p : DuePayment). holds txn p.txn_id) ps)

-- `tx.duePayment.create`, refused by the unique keys on the id, on txnId and on (userId, dueId).
unfoldable pub create_due_payment : DuePayment → Action (Unit {0})
unfolding find_due_payment find_paid
create_due_payment p db =
    if taken (find_due_payment p.id db.due_payments)
      || is_linked p.txn_id db.due_payments
      || taken (find_paid p.user_id p.due_id db.due_payments)
    then (err unique_violation, db)
    else (ok tt, record db { due_payments = p ∷ db.due_payments })

abbrev pub payment_row : Checkout → CheckoutItem → ℕ → Option ℕ → DuePayment
payment_row c i id link = record {
  id = id;
  user_id = c.user_id;
  due_id = i.due_id;
  checkout_id = some c.id;
  txn_id = link;
  reference = c.reference;
  amount_paid = i.face_kobo + i.fee_kobo;
  duevy_fee = i.fee_kobo;
  net_to_space = i.face_kobo;
}

abbrev pub collection_entry : Checkout → CheckoutItem → ℕ → Option ℕ → LedgerEntry
collection_entry c i payment txn = record {
  space_id = c.space_id;
  due_id = some i.due_id;
  txn_id = txn;
  due_payment_id = some payment;
  payout_id = none;
  entry_type = EntryType.due_payment;
  direction = Direction.credit;
  amount_kobo = i.face_kobo;
  gross_kobo = some (i.face_kobo + i.fee_kobo);
  fee_kobo = some i.fee_kobo;
  net_kobo = some i.face_kobo;
  reference = c.reference;
}

-- A due paid through another checkout is flagged; one paid by this checkout is not.
abbrev pub add_flag : Checkout → CheckoutItem → DuePayment → List Flag → List Flag
add_flag c i e flags =
    if holds c.id e.checkout_id then flags else Flag.due_already_paid i.due_id e.reference ∷ flags

module _ (payment_id : ℕ → ℕ) (c : Checkout) (txn : Option ℕ) (existing : List DuePayment) where
  -- The loop over the lines of the checkout: `link` is `txnToLink`, and the answer is the flags.
  unfoldable pub pay_items : Option ℕ → List CheckoutItem → Action (List Flag)
  pay_items link [] = pure []
  pay_items link (i ∷ is) = elim (find_paid c.user_id i.due_id existing) [
    | some e ↦ pay_items link is >>= λ flags. pure (add_flag c i e flags)
    | none ↦
        create_due_payment (payment_row c i (payment_id i.due_id) link)
        >> append (collection_entry c i (payment_id i.due_id) txn)
        >> pay_items none is
  ]

abbrev pub flag_if : Bool → Flag → List Flag
flag_if true f = f ∷ []
flag_if false f = []

abbrev pub is_empty {ℓ} : {A : Type ℓ} → List A → Bool
is_empty [] = true
is_empty (_ ∷ _) = false

-- `Math.max(overpaidKobo, receivedKobo - totalKobo)`, with receivedKobo ≥ totalKobo.
abbrev pub excess_of : Checkout → ℕ → ℕ → ℕ
excess_of c received overpaid = max overpaid (received - c.total_kobo)

abbrev pub arrival_flags : Checkout → ℕ → List Flag
arrival_flags c excess =
    flag_if (ltb 0 excess) (Flag.overpaid excess)
    ++ (flag_if (is_checkout c.status CheckoutStatus.expired) Flag.paid_after_expiry
        ++ flag_if (is_checkout c.status CheckoutStatus.underpaid) Flag.previously_underpaid)

abbrev pub paid_row : ℕ → ℕ → List Flag → Checkout → Checkout
paid_row received excess flags c = record c {
  status = CheckoutStatus.paid;
  received_kobo = some received;
  overpaid_kobo = excess;
  needs_review = not (is_empty flags) || c.needs_review;
  review_reason = if is_empty flags then c.review_reason else flags;
}

-- The receipt of the checkout stays if there is one; numbers are unique.
unfoldable pub upsert_receipt : Receipt → Action (Unit {0})
upsert_receipt r db =
    if taken (find? (λ (s : Receipt). s.checkout_id == r.checkout_id) db.receipts)
    then (ok tt, db)
    else (if taken (find? (λ (s : Receipt). s.number == r.number) db.receipts)
        then (err unique_violation, db)
        else (ok tt, record db { receipts = r ∷ db.receipts }))

abbrev pub set_txn : TxnStatus → Transaction → Transaction
set_txn s t = record t { status = s }

unfoldable pub complete_txn : Option Transaction → Action (Unit {0})
complete_txn none = pure tt
complete_txn (some t) = modify (λ db. record db {
  transactions =
      update_by (λ (u : Transaction). u.id) t.id (set_txn TxnStatus.completed) db.transactions;
})

-- `providerChargeId && checkout.providerChargeId && providerChargeId !== checkout.providerChargeId`
abbrev pub other_charge : Option ℕ → Option ℕ → Option ℕ
other_charge none _ = none
other_charge (some a) none = none
other_charge (some a) (some b) = if a == b then none else some a

abbrev pub txn_id_of : Option Transaction → Option ℕ
txn_id_of = map_option (λ (t : Transaction). t.id)

abbrev pub link_of : Option Transaction → List DuePayment → Option ℕ
link_of none ps = none
link_of (some t) ps = if is_linked (some t.id) ps then none else some t.id

abbrev pub items_of : ℕ → Db → List CheckoutItem
items_of checkout db = keep (λ (i : CheckoutItem). i.checkout_id == checkout) db.checkout_items

-- `tx.transaction.findUnique({ where: { reference } })`
unfoldable pub txn_of : Checkout → Db → Option Transaction
txn_of c db = find_by (λ (t : Transaction). t.reference) c.reference db.transactions

module _ (payment_id : ℕ → ℕ) (receipt_number : ℕ) (id received overpaid : ℕ)
    (charge : Option ℕ) where
  -- The transaction, the checkout and the receipt, once the lines are paid.
  unfoldable pub close_checkout : Checkout → Option Transaction → List Flag → Action Fulfilled
  close_checkout c txn flags = do
    complete_txn txn
    update_checkout id (paid_row received (excess_of c received overpaid) flags)
    upsert_receipt (record {
      number = receipt_number;
      checkout_id = id;
      user_id = c.user_id;
      space_id = c.space_id;
      total_kobo = received;
    })
    pure (Fulfilled.paid flags)

  -- Money that covers an open checkout.
  unfoldable pub settle_checkout : Checkout → Action Fulfilled
  settle_checkout c = do
    lift (assert_checkout_transition c.status CheckoutStatus.paid)
    items ← gets (items_of id)
    txn ← gets (txn_of c)
    existing ← gets (λ db. db.due_payments)
    found ← pay_items payment_id c (txn_id_of txn) existing (link_of txn existing) items
    close_checkout c txn (arrival_flags c (excess_of c received overpaid) ++ found)

  -- A second payment on another charge stays in front of an admin.
  unfoldable pub review_paid : Checkout → Action Fulfilled
  review_paid c = elim (other_charge charge c.provider_charge_id) [
    | none ↦ pure (Fulfilled.already_paid [])
    | some other ↦
        update_checkout id (λ r. record r {
          needs_review = true;
          review_reason = c.review_reason ++ (Flag.other_charge received other ∷ []);
        })
        >> pure (Fulfilled.already_paid (Flag.other_charge received other ∷ []))
  ]

  -- The transaction of `fulfilCheckout`.
  unfoldable pub fulfil_tx : Action Fulfilled
  fulfil_tx = transaction (do
    c ← lock_checkout id
    if is_checkout c.status CheckoutStatus.paid
        then review_paid c
        else (if ltb received c.total_kobo
            then pure (Fulfilled.short c.total_kobo)
            else settle_checkout c))

abbrev pub underpaid_row : ℕ → ℕ → Checkout → Checkout
underpaid_row received expected c = record c {
  status = CheckoutStatus.underpaid;
  received_kobo = some received;
  needs_review = true;
  review_reason = Flag.underpaid received expected ∷ [];
}

abbrev pub short_row : CheckoutStatus → ℕ → ℕ → Checkout → Checkout
short_row status received expected c = record c {
  received_kobo = some received;
  needs_review = true;
  review_reason = Flag.short_on_closed status received expected ∷ [];
}

-- `c.status === 'paid' || (c.status === 'underpaid' && c.receivedKobo === receivedKobo)`
abbrev pub is_replay : Checkout → ℕ → Bool
is_replay c received =
    is_checkout c.status CheckoutStatus.paid
    || (is_checkout c.status CheckoutStatus.underpaid && holds received c.received_kobo)

-- The answer says whether the checkout became underpaid.
unfoldable pub mark_underpaid : ℕ → ℕ → ℕ → Action Bool
mark_underpaid id received expected = transaction (do
  c ← lock_checkout id
  if can_transition_checkout c.status CheckoutStatus.underpaid
      then (update_checkout id (underpaid_row received expected) >> pure true)
      else (if is_replay c received
          then pure false
          else (update_checkout id (short_row c.status received expected) >> pure false)))

-- `reason === 'expired' ? c.reviewReason : reason`; no reason is the default one.
abbrev pub expired_row : Option ℕ → Checkout → Checkout
expired_row none c = record c { status = CheckoutStatus.expired }
expired_row (some reason) c = record c {
  status = CheckoutStatus.expired;
  review_reason = Flag.closed_for reason ∷ [];
}

abbrev pub is_pending_txn : TxnStatus → Bool
is_pending_txn TxnStatus.pending = true
is_pending_txn TxnStatus.completed = false
is_pending_txn TxnStatus.failed = false

abbrev pub fail_txn : ℕ → Transaction → Transaction
fail_txn reference t =
    if t.reference == reference && is_pending_txn t.status then set_txn TxnStatus.failed t else t

unfoldable pub expire_checkout : ℕ → Option ℕ → Action Bool
expire_checkout id reason = transaction (do
  c ← lock_checkout id
  if can_transition_checkout c.status CheckoutStatus.expired
      then (update_checkout id (expired_row reason)
          >> modify (λ db. record db { transactions = map (fail_txn c.reference) db.transactions })
          >> pure true)
      else pure false)

module _ (payment_id : ℕ → ℕ) (receipt_number : ℕ) (id received overpaid : ℕ)
    (charge : Option ℕ) where
  unfoldable pub fulfil_checkout : Action FulfilOutcome
  fulfil_checkout = do
    result ← fulfil_tx payment_id receipt_number id received overpaid charge
    elim result [
      | paid flags ↦ pure FulfilOutcome.paid
      | already_paid flags ↦ pure FulfilOutcome.already_paid
      | short total ↦ mark_underpaid id received total >>= λ _. pure FulfilOutcome.underpaid
    ]
