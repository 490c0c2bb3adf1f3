-- ===== src/Checkout/Replay.antt =====
-- Outcomes of src/services/checkout.service.ts that arrive late, short or again.
use duevy_be.Base.{
  ℕ, ◌<◌, ◌≡◌, refl, true, false, Option, none, some, List, Bool-cases, inl, inr, arith,
}
use duevy_be.Base.Results.{ok, is_ok, Result-cases}
use duevy_be.StateMachine.{CheckoutStatus, is_checkout, can_transition_checkout}
use duevy_be.Store.{Db, Checkout, Flag}
use duevy_be.Checkout.Outcomes.{
  find_checkout, update_checkout, fulfil_tx, review_paid, Fulfilled, FulfilOutcome, fulfil_checkout,
  mark_underpaid, expire_checkout, other_charge, paid_row, excess_of, is_replay,
}
use duevy_be.Checkout.Settlement.{IsLinked}
use duevy_be.Checkout.Paid.{fulfil_tx-paid, lock_checkout_lem}

-- Once a checkout is paid, a report of the payment that paid it, of a short payment or of its expiry
-- changes nothing.
pub paid_checkout_is_final :
    (payment_id : ℕ → ℕ) (receipt_number id received overpaid : ℕ) (charge : Option ℕ)
    (c : Checkout) (db : Db)
    → find_checkout id db.checkouts ≡ some c
    → c.status ≡ CheckoutStatus.paid
    → other_charge charge c.provider_charge_id ≡ none
    → (expected : ℕ) (reason : Option ℕ)
    → (fulfil_checkout payment_id receipt_number id received overpaid charge db
        ≡ (ok FulfilOutcome.already_paid, db))
      × (mark_underpaid id received expected db ≡ (ok false, db))
      × (expire_checkout id reason db ≡ (ok false, db))
unfolding fulfil_checkout fulfil_tx review_paid mark_underpaid expire_checkout
    can_transition_checkout
paid_checkout_is_final payment_id receipt_number id received overpaid charge c db found paid same
      expected reason =
    let lock = lock_checkout_lem id c db found in
    (ground (arith, lock), ground (arith, lock), ground (arith, lock))

-- The transaction answers `paid` if the service does.
paid_answer :
    (payment_id : ℕ → ℕ) (receipt_number id received overpaid : ℕ) (charge : Option ℕ) (db : Db)
    {db' : Db}
    → fulfil_checkout payment_id receipt_number id received overpaid charge db
      ≡ (ok FulfilOutcome.paid, db')
    → (flags : List Flag) × (fulfil_tx payment_id receipt_number id received overpaid charge db
        ≡ (ok (Fulfilled.paid flags), db'))
unfolding fulfil_checkout
paid_answer payment_id receipt_number id received overpaid charge db done =
    elim (Result-cases (fulfil_tx payment_id receipt_number id received overpaid charge db).0) [
      | inr (x, thrown) ↦ absurd (ground arith)
      | inl (Fulfilled.paid flags, answer) ↦ (flags, ground arith)
      | inl (Fulfilled.already_paid flags, answer) ↦ absurd (ground arith)
      | inl (Fulfilled.short total, answer) ↦
          elim (Result-cases
            (mark_underpaid id received total
              (fulfil_tx payment_id receipt_number id received overpaid charge db).1).0) [
                | inl (b, marked) ↦ absurd (ground arith)
                | inr (x, thrown) ↦ absurd (ground arith)
              ]
    ]

-- Where every ledger entry names payments that are there, a payment that is fulfilled and then
-- reported again, on the checkout's own charge or on none that is known, is answered `already_paid`
-- and changes nothing the second time, whatever ids are drawn.
pub fulfil_checkout_twice :
    (payment_id payment_id' : ℕ → ℕ) (number number' id received overpaid : ℕ) (charge : Option ℕ)
    (c : Checkout) (db : Db) {db' : Db}
    → IsLinked db
    → find_checkout id db.checkouts ≡ some c
    → other_charge charge c.provider_charge_id ≡ none
    → fulfil_checkout payment_id number id received overpaid charge db
      ≡ (ok FulfilOutcome.paid, db')
    → fulfil_checkout payment_id' number' id received overpaid charge db'
      ≡ (ok FulfilOutcome.already_paid, db')
fulfil_checkout_twice payment_id payment_id' number number' id received overpaid charge c db {db'}
      linked found same done =
    let (flags, answer) = paid_answer payment_id number id received overpaid charge db done in
    let facts =
      fulfil_tx-paid payment_id number id received overpaid charge c db linked found answer in
    (paid_checkout_is_final payment_id' number' id received overpaid charge
      (paid_row received (excess_of c received overpaid) flags c) db' facts.3 refl same 0 none).0

-- A short report is answered, and changes the checkout's row at most.
mark_underpaid-keeps :
    (id received expected : ℕ) (c : Checkout) (db : Db)
    → find_checkout id db.checkouts ≡ some c
    → let after = mark_underpaid id received expected db in
      (is_ok after.0 ≡ true)
      × (after.1.ledger ≡ db.ledger)
      × (after.1.due_payments ≡ db.due_payments)
      × (after.1.receipts ≡ db.receipts)
unfolding mark_underpaid update_checkout
mark_underpaid-keeps id received expected c db found =
    let lock = lock_checkout_lem id c db found in
    elim (Bool-cases (can_transition_checkout c.status CheckoutStatus.underpaid)) [
      | inl can ↦
          (ground (arith, lock), ground (arith, lock), ground (arith, lock), ground (arith, lock))
      | inr cannot ↦ elim (Bool-cases (is_replay c received)) [
        | inl again ↦
            (ground (arith, lock), ground (arith, lock), ground (arith, lock), ground (arith, lock))
        | inr new ↦
            (ground (arith, lock), ground (arith, lock), ground (arith, lock), ground (arith, lock))
      ]
    ]

fulfil_tx-short :
    (payment_id : ℕ → ℕ) (number id received overpaid : ℕ) (charge : Option ℕ) (c : Checkout)
    (db : Db)
    → find_checkout id db.checkouts ≡ some c
    → is_checkout c.status CheckoutStatus.paid ≡ false
    → received < c.total_kobo
    → fulfil_tx payment_id number id received overpaid charge db
      ≡ (ok (Fulfilled.short c.total_kobo), db)
unfolding fulfil_tx
fulfil_tx-short payment_id number id received overpaid charge c db found unpaid short =
    ground (arith, lock_checkout_lem id c db found)

-- A payment of less than the total, on a checkout that is there and not paid, is answered
-- `underpaid`; no due is paid, no space is credited and no receipt is issued.
pub short_payment_pays_nothing :
    (payment_id : ℕ → ℕ) (number id received overpaid : ℕ) (charge : Option ℕ) (c : Checkout)
    (db : Db)
    → find_checkout id db.checkouts ≡ some c
    → is_checkout c.status CheckoutStatus.paid ≡ false
    → received < c.total_kobo
    → let after = fulfil_checkout payment_id number id received overpaid charge db in
      (after.0 ≡ ok FulfilOutcome.underpaid)
      × (after.1.ledger ≡ db.ledger)
      × (after.1.due_payments ≡ db.due_payments)
      × (after.1.receipts ≡ db.receipts)
unfolding fulfil_checkout
short_payment_pays_nothing payment_id number id received overpaid charge c db found unpaid short =
    let kept = mark_underpaid-keeps id received c.total_kobo c db found in
    let first =
      fulfil_tx-short payment_id number id received overpaid charge c db found unpaid short in
    elim (Result-cases (mark_underpaid id received c.total_kobo db).0) [
      | inr (x, thrown) ↦ absurd (ground (arith, kept.0))
      | inl (b, answer) ↦ (
        ground (arith, first),
        ground (arith, first, kept.1),
        ground (arith, first, kept.2),
        ground (arith, first, kept.3),
      )
    ]
