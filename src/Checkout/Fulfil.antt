-- ===== src/Checkout/Fulfil.antt =====
-- The loop of `fulfilCheckout` (src/services/checkout.service.ts), by induction on the lines.
use duevy_be.Base.{
  ℕ, ◌≡◌, refl, sym, ap, ◌∙◌, true, false, Option, none, List, [], ◌∷◌, Bool-cases, Option-cases,
  inl, inr, arith,
}
use duevy_be.Base.Int.{pos_add_zero, pos_add_pos}
use duevy_be.Base.Results.{ok, Result-cases}
use duevy_be.Store.{Db, Checkout, CheckoutItem, DuePayment, Flag}
use duevy_be.Store.Action.{Action, ◌>>◌}
use duevy_be.Ledger.{has_conflict, get_space_balance}
use duevy_be.Ledger.Append.{get_space_balance-cons}
use duevy_be.Withdrawal.Payouts.{append}
use duevy_be.Checkout.Outcomes.{
  find_paid, create_due_payment, payment_row, collection_entry, pay_items,
}
use duevy_be.Checkout.Settlement.{
  IsLinked, no_conflict, append-inserted, create-inserted, is_paid, unpaid_faces, Loop, paid_line,
  paid_line-IsLinked, paid_line-kept, paid_line-paid,
}

-- Both steps of a sequence that is answered were answered.
pub step :
    {B : Type 0} (m : Action (Unit {0})) (k : Action B) (db : Db) {b : B} {db' : Db}
    → (m >> k) db ≡ (ok b, db')
    → (mid : Db) × (m db ≡ (ok tt, mid)) × (k mid ≡ (ok b, db'))
step m k db done = elim (Result-cases (m db).0) [
  | inl (u, answer) ↦ ((m db).1, ground arith, ground (arith, done))
  | inr (x, thrown) ↦ absurd (ground arith)
]

module _ (payment_id : ℕ → ℕ) (c : Checkout) (txn : Option ℕ) (existing : List DuePayment) where
  skip_line :
      (link : Option ℕ) (i : CheckoutItem) (is : List CheckoutItem) (db : Db) {flags : List Flag}
      {db' : Db}
      → is_paid c.user_id i.due_id existing ≡ true
      → pay_items payment_id c txn existing link (i ∷ is) db ≡ (ok flags, db')
      → (fl : List Flag) × (pay_items payment_id c txn existing link is db ≡ (ok fl, db'))
  unfolding pay_items
  skip_line link i is db paid done = elim (Option-cases (find_paid c.user_id i.due_id existing)) [
    | inl no_one ↦ absurd (ground arith)
    | inr (e, was) ↦ elim (Result-cases (pay_items payment_id c txn existing link is db).0) [
      | inl (fl, answer) ↦ (fl, ground arith)
      | inr (x, thrown) ↦ absurd (ground arith)
    ]
  ]

  pay_line :
      (link : Option ℕ) (i : CheckoutItem) (is : List CheckoutItem) (db : Db) {flags : List Flag}
      {db' : Db}
      → is_paid c.user_id i.due_id existing ≡ false
      → IsLinked db
      → pay_items payment_id c txn existing link (i ∷ is) db ≡ (ok flags, db')
      → pay_items payment_id c txn existing none is
          (paid_line c i (payment_id i.due_id) link txn db)
        ≡ (ok flags, db')
  unfolding pay_items
  pay_line link i is db unpaid linked done =
      let row = payment_row c i (payment_id i.due_id) link in
      let entry = collection_entry c i (payment_id i.due_id) txn in
      elim (Option-cases (find_paid c.user_id i.due_id existing)) [
        | inr (e, was) ↦ absurd (ground arith)
        | inl no_one ↦
            let (two, first, last) =
              step (create_due_payment row >> append entry)
                (pay_items payment_id c txn existing none is) db (ground (arith, done)) in
            let (one, created, appended) = step (create_due_payment row) (append entry) db first in
            let (new, _, is_row) = create-inserted row db created in
            let fresh : has_conflict entry one.ledger ≡ false = rw is_row (
              no_conflict c i (payment_id i.due_id) txn db.ledger
                (linked.there (payment_id i.due_id) new)) in
            let is_line : two ≡ paid_line c i (payment_id i.due_id) link txn db =
              rw (append-inserted entry one fresh appended, is_row) refl in
            ap (λ d. pay_items payment_id c txn existing none is d) (sym is_line) ∙ last
      ]

  nothing_paid : (db : Db) → IsLinked db → Loop c existing [] db db
  nothing_paid db linked = record {
    balance = λ space. ground (arith, pos_add_zero (get_space_balance space db.ledger));
    kept = λ user due h. h;
    all_paid = tt;
    linked = linked;
    checkouts = refl;
    payouts = refl;
    receipts = refl;
  }

  pub pay_items-Loop :
      (link : Option ℕ) (items : List CheckoutItem) (db : Db) {flags : List Flag} {db' : Db}
      → IsLinked db
      → ((due : ℕ)
          → is_paid c.user_id due existing ≡ true
          → is_paid c.user_id due db.due_payments ≡ true)
      → pay_items payment_id c txn existing link items db ≡ (ok flags, db')
      → Loop c existing items db db'
  unfolding pay_items
  pay_items-Loop link [] db {db'} linked known done =
      let same : db ≡ db' = ground arith in rw (← same) (nothing_paid db linked)
  pay_items-Loop link (i ∷ is) db linked known done =
      elim (Bool-cases (is_paid c.user_id i.due_id existing)) [
        | inl paid ↦
            let (fl, rest) = skip_line link i is db paid done in
            let l = pay_items-Loop link is db linked known rest in
            record {
              balance = λ space. ground (arith, l.balance space);
              kept = l.kept;
              all_paid = (l.kept c.user_id i.due_id (known i.due_id paid), l.all_paid);
              linked = l.linked;
              checkouts = l.checkouts;
              payouts = l.payouts;
              receipts = l.receipts;
            }
        | inr unpaid ↦
            let next = paid_line c i (payment_id i.due_id) link txn db in
            let rest = pay_line link i is db unpaid linked done in
            let l =
              pay_items-Loop none is next
                (paid_line-IsLinked c i (payment_id i.due_id) link txn db linked)
                (λ due p.
                  paid_line-kept c i (payment_id i.due_id) link txn db c.user_id due (known due p))
                rest in
            record {
              balance = λ space. ground (
                arith,
                l.balance space,
                get_space_balance-cons space (collection_entry c i (payment_id i.due_id) txn)
                    db.ledger,
                pos_add_pos (unpaid_faces c.user_id existing is) i.face_kobo
                    (get_space_balance space db.ledger),
              );
              kept = λ user due h.
                  l.kept user due (paid_line-kept c i (payment_id i.due_id) link txn db user due h);
              all_paid = (
                l.kept c.user_id i.due_id (paid_line-paid c i (payment_id i.due_id) link txn db),
                l.all_paid,
              );
              linked = l.linked;
              checkouts = l.checkouts;
              payouts = l.payouts;
              receipts = l.receipts;
            }
      ]
