-- ===== src/Checkout/Settlement.antt =====
-- What the loop of `fulfilCheckout` over the lines of a checkout (src/services/checkout.service.ts)
-- does to the payments and the ledger.
use duevy_be.Base.{
  ℕ, ◌+◌, ◌≡◌, refl, Bool, true, false, ◌&&◌, ◌==◌, holds, if◌then◌else◌, Option, none, some, List,
  [], ◌∷◌, All, Option-cases, inl, inr, arith,
}
use duevy_be.Base.Int.{pos, ◌+ℤ◌}
use duevy_be.Base.Table.{find_by}
use duevy_be.Base.Results.{ok}
use duevy_be.Store.{Db, Checkout, CheckoutItem, DuePayment, LedgerEntry}
use duevy_be.Ledger.{Ledger, has_conflict, append_ledger_entry, get_space_balance}
use duevy_be.Withdrawal.Payouts.{append, taken}
use duevy_be.Checkout.Outcomes.{
  find_paid, find_due_payment, create_due_payment, payment_row, collection_entry,
}

-- An entry of the ledger names the payment.
abbrev pub names : ℕ → Ledger → Bool
names id [] = false
names id (e ∷ l) = let rest = names id l in if holds id e.due_payment_id then true else rest

-- The foreign key of the ledger: an entry names only payments that are there.
pub record IsLinked (db : Db) : Type 0 where
  pub there : (id : ℕ) → find_due_payment id db.due_payments ≡ none → names id db.ledger ≡ false

pub no_conflict :
    (c : Checkout) (i : CheckoutItem) (id : ℕ) (txn : Option ℕ) (l : Ledger)
    → names id l ≡ false
    → has_conflict (collection_entry c i id txn) l ≡ false
unfolding has_conflict
no_conflict c i id txn [] h = refl
no_conflict c i id txn (e ∷ l) h = ground (arith, no_conflict c i id txn l)

pub append-inserted :
    (e : LedgerEntry) (db : Db) {db' : Db}
    → has_conflict e db.ledger ≡ false
    → append e db ≡ (ok tt, db')
    → db' ≡ record db { ledger = e ∷ db.ledger }
unfolding append append_ledger_entry
append-inserted e db h done = ground arith

pub create-inserted :
    (p : DuePayment) (db : Db) {db' : Db}
    → create_due_payment p db ≡ (ok tt, db')
    → (find_due_payment p.id db.due_payments ≡ none)
      × (find_paid p.user_id p.due_id db.due_payments ≡ none)
      × (db' ≡ record db { due_payments = p ∷ db.due_payments })
unfolding create_due_payment
create-inserted p db done = elim (Option-cases (find_due_payment p.id db.due_payments)) [
  | inr (a, clash) ↦ absurd (ground arith)
  | inl new ↦ elim (Option-cases (find_paid p.user_id p.due_id db.due_payments)) [
    | inr (a, clash) ↦ absurd (ground arith)
    | inl first ↦ (new, first, ground arith)
  ]
]

abbrev pub is_paid : ℕ → ℕ → List DuePayment → Bool
is_paid user due ps = taken (find_paid user due ps)

-- The face value of the lines with no payment yet.
abbrev pub unpaid_faces : ℕ → List DuePayment → List CheckoutItem → ℕ
unpaid_faces user existing [] = 0
unpaid_faces user existing (i ∷ is) =
    let rest = unpaid_faces user existing is in
    if is_paid user i.due_id existing then rest else i.face_kobo + rest

find_paid-cons :
    (user due : ℕ) (p : DuePayment) (ps : List DuePayment)
    → find_paid user due (p ∷ ps)
      ≡ (if p.user_id == user && (p.due_id == due) then some p else find_paid user due ps)
unfolding find_paid
find_paid-cons user due p ps = refl

find_due_payment-cons :
    (id : ℕ) (p : DuePayment) (ps : List DuePayment)
    → find_due_payment id (p ∷ ps) ≡ (if p.id == id then some p else find_due_payment id ps)
unfolding find_due_payment find_by
find_due_payment-cons id p ps = refl

-- What one run of the loop leaves.
pub record Loop (c : Checkout) (existing : List DuePayment) (items : List CheckoutItem)
    (db db' : Db) : Type 0 where
  pub balance :
      (space : ℕ)
      → get_space_balance space db'.ledger ≡ (
          if c.space_id == space
          then pos (unpaid_faces c.user_id existing items) +ℤ get_space_balance space db.ledger
          else get_space_balance space db.ledger)
  pub kept :
      (user due : ℕ)
      → is_paid user due db.due_payments ≡ true
      → is_paid user due db'.due_payments ≡ true
  pub all_paid : All (λ i. is_paid c.user_id i.due_id db'.due_payments ≡ true) items
  pub linked : IsLinked db'
  pub checkouts : db'.checkouts ≡ db.checkouts
  pub payouts : db'.payouts ≡ db.payouts
  pub receipts : db'.receipts ≡ db.receipts

-- The database after one line is paid.
abbrev pub paid_line : Checkout → CheckoutItem → ℕ → Option ℕ → Option ℕ → Db → Db
paid_line c i id link txn db = record db {
  due_payments = payment_row c i id link ∷ db.due_payments;
  ledger = collection_entry c i id txn ∷ db.ledger;
}

pub paid_line-IsLinked :
    (c : Checkout) (i : CheckoutItem) (id : ℕ) (link txn : Option ℕ) (db : Db)
    → IsLinked db
    → IsLinked (paid_line c i id link txn db)
paid_line-IsLinked c i id link txn db h = record {
  there = λ k none_there.
      ground (arith, find_due_payment-cons k (payment_row c i id link) db.due_payments, h.there k);
}

pub paid_line-kept :
    (c : Checkout) (i : CheckoutItem) (id : ℕ) (link txn : Option ℕ) (db : Db) (user due : ℕ)
    → is_paid user due db.due_payments ≡ true
    → is_paid user due (paid_line c i id link txn db).due_payments ≡ true
paid_line-kept c i id link txn db user due h =
    ground (arith, find_paid-cons user due (payment_row c i id link) db.due_payments)

pub paid_line-paid :
    (c : Checkout) (i : CheckoutItem) (id : ℕ) (link txn : Option ℕ) (db : Db)
    → is_paid c.user_id i.due_id (paid_line c i id link txn db).due_payments ≡ true
paid_line-paid c i id link txn db =
    ground (arith, find_paid-cons c.user_id i.due_id (payment_row c i id link) db.due_payments)
