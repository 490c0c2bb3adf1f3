-- ===== src/Checkout/Paid.antt =====
-- `fulfilCheckout` of src/services/checkout.service.ts as a whole.
use duevy_be.Base.{
  ℕ, ◌≤◌, ◌≡◌, refl, true, ◌==◌, ltb, if◌then◌else◌, Option, none, some, List, ◌++◌, All,
  Bool-cases, Option-cases, inl, inr, arith,
}
use duevy_be.Base.Int.{pos, ◌+ℤ◌}
use duevy_be.Base.Table.{update_by, find_by-update_by}
use duevy_be.Base.Results.{ok, Result-cases}
use duevy_be.StateMachine.{CheckoutStatus, is_checkout, assert_checkout_transition}
use duevy_be.Store.{Db, Checkout, Flag, Transaction}
use duevy_be.Store.Action.{Action}
use duevy_be.Ledger.{get_space_balance}
use duevy_be.Checkout.Outcomes.{
  find_checkout, lock_checkout, update_checkout, pay_items, settle_checkout, review_paid, fulfil_tx,
  Fulfilled, txn_of, txn_id_of, link_of, items_of, arrival_flags, excess_of, paid_row, complete_txn,
  upsert_receipt, other_charge, close_checkout,
}
use duevy_be.Checkout.Settlement.{IsLinked, is_paid, unpaid_faces}
use duevy_be.Checkout.Fulfil.{pay_items-Loop}

pub lock_checkout_lem :
    (id : ℕ) (c : Checkout) (db : Db)
    → find_checkout id db.checkouts ≡ some c
    → lock_checkout id db ≡ (ok c, db)
unfolding lock_checkout
lock_checkout_lem id c db found = ground (arith, found)

module _ (payment_id : ℕ → ℕ) (receipt_number : ℕ) (id received overpaid : ℕ)
    (charge : Option ℕ) where
  -- Closing a checkout touches no payment and no ledger entry.
  close_checkout-parts :
      (c : Checkout) (txn : Option Transaction) (flags : List Flag) (db : Db) {r : Fulfilled}
      {db' : Db}
      → close_checkout payment_id receipt_number id received overpaid charge c txn flags db
        ≡ (ok r, db')
      → (r ≡ Fulfilled.paid flags)
        × (db'.ledger ≡ db.ledger)
        × (db'.due_payments ≡ db.due_payments)
        × (db'.checkouts
            ≡ update_by
                (λ (k : Checkout). k.id)
                id
                (paid_row received (excess_of c received overpaid) flags)
                db.checkouts)
  unfolding close_checkout update_checkout complete_txn upsert_receipt
  close_checkout-parts c none flags db done =
      (ground arith, ground arith, ground arith, ground arith)
  close_checkout-parts c (some t) flags db done =
      (ground arith, ground arith, ground arith, ground arith)

  abbrev lines : Checkout → Db → Action (List Flag)
  lines c db =
      pay_items payment_id c (txn_id_of (txn_of c db)) db.due_payments
        (link_of (txn_of c db) db.due_payments) (items_of id db)

  -- The loop runs in the database as it is.
  settle-parts :
      (c : Checkout) (db : Db) {r : Fulfilled} {db' : Db}
      → settle_checkout payment_id receipt_number id received overpaid charge c db ≡ (ok r, db')
      → (found : List Flag) × (mid : Db) × (lines c db db ≡ (ok found, mid))
        × (close_checkout payment_id receipt_number id received overpaid charge c
              (txn_of c db)
              (arrival_flags c (excess_of c received overpaid) ++ found)
              mid
            ≡ (ok r, db'))
  unfolding settle_checkout
  settle-parts c db done =
      elim (Result-cases (assert_checkout_transition c.status CheckoutStatus.paid)) [
        | inr (x, no_way) ↦ absurd (ground arith)
        | inl (u, can) ↦ elim (Result-cases (lines c db db).0) [
          | inr (x, thrown) ↦ absurd (ground arith)
          | inl (found, answer) ↦ (found, (lines c db db).1, ground arith, ground arith)
        ]
      ]

  abbrev fulfil : Action Fulfilled
  fulfil = fulfil_tx payment_id receipt_number id received overpaid charge

  -- An answer `paid` comes from a checkout that was open and covered.
  paid-settles :
      (c : Checkout) (db : Db) {flags : List Flag} {db' : Db}
      → find_checkout id db.checkouts ≡ some c
      → fulfil db ≡ (ok (Fulfilled.paid flags), db')
      → (c.total_kobo ≤ received)
        × (settle_checkout payment_id receipt_number id received overpaid charge c db
            ≡ (ok (Fulfilled.paid flags), db'))
  unfolding fulfil_tx review_paid
  paid-settles c db found done = elim (Bool-cases (is_checkout c.status CheckoutStatus.paid)) [
    | inl was ↦ elim (Option-cases (other_charge charge c.provider_charge_id)) [
      | inl same ↦ absurd (ground (arith, lock_checkout_lem id c db found))
      | inr (k, other) ↦
          absurd (unfold update_checkout in ground (arith, lock_checkout_lem id c db found))
    ]
    | inr open_still ↦ elim (Bool-cases (ltb received c.total_kobo)) [
      | inl short ↦ absurd (ground (arith, lock_checkout_lem id c db found))
      | inr covered ↦
          elim (Result-cases
            (settle_checkout payment_id receipt_number id received overpaid charge c db).0) [
              | inr (x, thrown) ↦ absurd (ground (arith, lock_checkout_lem id c db found))
              | inl (r, answer) ↦ (ground arith, ground (arith, lock_checkout_lem id c db found))
            ]
    ]
  ]

  find_checkout-updated :
      (f : Checkout → Checkout) (cs : List Checkout) (c : Checkout)
      → ((k : Checkout) → (f k).id ≡ k.id)
      → find_checkout id cs ≡ some c
      → find_checkout id (update_by (λ (k : Checkout). k.id) id f cs) ≡ some (f c)
  unfolding find_checkout
  find_checkout-updated f cs c keeps there =
      let law = find_by-update_by (λ (k : Checkout). k.id) id id f cs keeps in ground (arith, law)

  -- Where every ledger entry names payments that are there, an answer `paid` of `fulfilCheckout` means:
  -- at least the total arrived; the balance of the checkout's space has gone up by the face values of
  -- the lines that the student had not paid yet and no other balance has moved; every line is now
  -- paid for the student; and the checkout is paid.
  pub fulfil_tx-paid :
      (c : Checkout) (db : Db) {flags : List Flag} {db' : Db}
      → IsLinked db
      → find_checkout id db.checkouts ≡ some c
      → fulfil_tx payment_id receipt_number id received overpaid charge db
        ≡ (ok (Fulfilled.paid flags), db')
      → (c.total_kobo ≤ received)
        × ((space : ℕ)
            → get_space_balance space db'.ledger ≡ (
                if c.space_id == space
                then pos (unpaid_faces c.user_id db.due_payments (items_of id db))
                  +ℤ get_space_balance space db.ledger
                else get_space_balance space db.ledger))
        × All (λ i. is_paid c.user_id i.due_id db'.due_payments ≡ true) (items_of id db)
        × (find_checkout id db'.checkouts
            ≡ some (paid_row received (excess_of c received overpaid) flags c))
        × IsLinked db'
  fulfil_tx-paid c db {flags} {db'} linked found done =
      let (covered, settled) = paid-settles c db found done in
      let (extra, mid, looped, closed) = settle-parts c db settled in
      let l =
        pay_items-Loop payment_id c (txn_id_of (txn_of c db)) db.due_payments
          (link_of (txn_of c db) db.due_payments) (items_of id db) db linked (λ due h. h) looped in
      let (r, same_ledger, same_payments, rows) =
        close_checkout-parts c (txn_of c db)
          (arrival_flags c (excess_of c received overpaid) ++ extra) mid closed in
      let named : flags ≡ arrival_flags c (excess_of c received overpaid) ++ extra =
        ground (arith, r) in
      let there : find_checkout id mid.checkouts ≡ some c = rw (l.checkouts) found in
      (
        covered,
        λ space. rw same_ledger (l.balance space),
        rw same_payments l.all_paid,
        rw (rows, named)
            (find_checkout-updated
              (paid_row received (excess_of c received overpaid)
                (arrival_flags c (excess_of c received overpaid) ++ extra))
              mid.checkouts c (λ k. refl) there),
        record { there = rw (same_ledger, same_payments) l.linked.there },
      )
