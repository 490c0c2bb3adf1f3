-- ===== src/Tests/Checkouts.antt =====
-- Checkouts and their outcomes (src/services/checkout.service.ts).
use duevy_be.Base.{
  sum, map, ℕ, ◌+◌, ◌≤◌, ◌≡◌, ◌≢◌, refl, true, false, ◌==◌, if◌then◌else◌, none, some, List, [],
  ◌∷◌, ◌++◌, sum_by, All, arith,
}
use duevy_be.Base.Int.{pos, ◌+ℤ◌}
use duevy_be.Base.Table.{find_by, update_by}
use duevy_be.Base.Results.{ok}
use duevy_be.Money.{max_safe_integer, checkout_fee, mul_div_round_half_up, assert_kobo}
use duevy_be.Money.Allocate.{allocate}
use duevy_be.StateMachine.{can_transition_checkout, assert_checkout_transition}
use duevy_be.Store.{Db, Checkout, CheckoutItem, Due, DueStatus}
use duevy_be.Ledger.{append_ledger_entry, has_conflict, get_space_balance}
use duevy_be.Withdrawal.Payouts.{append}
use duevy_be.Checkout.Outcomes.{
  find_checkout, find_paid, find_due_payment, create_due_payment, update_checkout, complete_txn,
  upsert_receipt, txn_of, pay_items, close_checkout, settle_checkout, lock_checkout, fulfil_tx,
  fulfil_checkout, mark_underpaid, expire_checkout, Fulfilled, FulfilOutcome, items_of, paid_row,
  excess_of,
}
use duevy_be.Checkout.Settlement.{IsLinked, is_paid, unpaid_faces}
use duevy_be.Checkout.Paid.{fulfil_tx-paid}
use duevy_be.Checkout.Replay.{
  fulfil_checkout_twice, paid_checkout_is_final, short_payment_pays_nothing,
}
use duevy_be.Checkout.Create.{
  open_tx, open_checkouts, unique_checkout_reference, in_order, item_rows, new_checkout, due_amount,
  insert_id, sort_ids, same_ids,
}
use duevy_be.Checkout.Lines.{Lists, open_tx-lines, item_fee, item_face}

abbrev waiting : Checkout
waiting = new_checkout 1 10 2 3 5000 2100 (7 ∷ []) (some 4) 0 100

abbrev shop : Db
shop = record {
  spaces = [];
  users = [];
  reps = [];
  memberships = [];
  dues = [];
  redemptions = [];
  ledger = [];
  payouts = [];
  approvals = [];
  otps = [];
  checkouts = waiting ∷ [];
  checkout_items = record { checkout_id = 1; due_id = 7; face_kobo = 5000; fee_kobo = 2100 } ∷ [];
  due_payments = [];
  transactions = [];
  receipts = [];
}

abbrev ids : ℕ → ℕ
ids due = due + 40

shop-IsLinked : IsLinked shop
shop-IsLinked = record { there = λ id none_there. refl }

waiting_run : find_checkout 1 shop.checkouts ≡ some waiting
unfolding find_checkout find_by
waiting_run = refl

abbrev after : Db
after = (fulfil_tx ids 6 1 7100 0 none shop).1

paid_run : fulfil_tx ids 6 1 7100 0 none shop ≡ (ok (Fulfilled.paid []), after)
unfolding find_by update_by find_checkout find_paid find_due_payment create_due_payment
    update_checkout complete_txn upsert_receipt txn_of pay_items close_checkout settle_checkout
    lock_checkout fulfil_tx append append_ledger_entry has_conflict assert_checkout_transition
    can_transition_checkout
paid_run = refl

fulfil_tx-paid_example :
    (7100 ≤ 7100)
    × ((space : ℕ)
        → get_space_balance space after.ledger ≡ (
            if 3 == space
            then pos (unpaid_faces 2 [] (items_of 1 shop)) +ℤ get_space_balance space []
            else get_space_balance space []))
    × All (λ i. is_paid 2 i.due_id after.due_payments ≡ true) (items_of 1 shop)
    × (find_checkout 1 after.checkouts ≡ some (paid_row 7100 (excess_of waiting 7100 0) [] waiting))
    × IsLinked after
fulfil_tx-paid_example =
    fulfil_tx-paid ids 6 1 7100 0 none waiting shop shop-IsLinked waiting_run paid_run

answered_paid_run : fulfil_checkout ids 6 1 7100 0 none shop ≡ (ok FulfilOutcome.paid, after)
unfolding find_by update_by find_checkout find_paid find_due_payment create_due_payment
    update_checkout complete_txn upsert_receipt txn_of pay_items close_checkout settle_checkout
    lock_checkout fulfil_tx append append_ledger_entry has_conflict assert_checkout_transition
    can_transition_checkout fulfil_checkout
answered_paid_run = refl

fulfil_checkout_twice_example :
    fulfil_checkout ids 9 1 7100 0 none after ≡ (ok FulfilOutcome.already_paid, after)
fulfil_checkout_twice_example =
    fulfil_checkout_twice ids ids 6 9 1 7100 0 none waiting shop shop-IsLinked waiting_run refl
      answered_paid_run

short_payment_pays_nothing_example :
    ((fulfil_checkout ids 6 1 7000 0 none shop).0 ≡ ok FulfilOutcome.underpaid)
    × ((fulfil_checkout ids 6 1 7000 0 none shop).1.ledger ≡ shop.ledger)
    × ((fulfil_checkout ids 6 1 7000 0 none shop).1.due_payments ≡ shop.due_payments)
    × ((fulfil_checkout ids 6 1 7000 0 none shop).1.receipts ≡ shop.receipts)
short_payment_pays_nothing_example =
    short_payment_pays_nothing ids 6 1 7000 0 none waiting shop waiting_run refl (omega arith)

abbrev closed : Checkout
closed = paid_row 7100 0 [] waiting

abbrev closed_shop : Db
closed_shop = record shop { checkouts = closed ∷ [] }

closed_run : find_checkout 1 closed_shop.checkouts ≡ some closed
unfolding find_checkout find_by
closed_run = refl

paid_checkout_is_final_example :
    (fulfil_checkout ids 6 1 7100 0 none closed_shop ≡ (ok FulfilOutcome.already_paid, closed_shop))
    × (mark_underpaid 1 7100 8000 closed_shop ≡ (ok false, closed_shop))
    × (expire_checkout 1 none closed_shop ≡ (ok false, closed_shop))
paid_checkout_is_final_example =
    paid_checkout_is_final ids 6 1 7100 0 none closed closed_shop closed_run refl refl 8000 none

abbrev due_seven : Due
due_seven = record {
  id = 7;
  space_id = 3;
  amount = 5000;
  status = DueStatus.active;
  allow_guests = false;
  assigned_rep_id = none;
  created_at = 0;
}

abbrev empty_shop : Db
empty_shop = record shop { checkouts = []; checkout_items = [] }

abbrev opened : Db
opened = (open_tx 0 30 1 2 (10 ∷ []) 2 3 (7 ∷ []) (due_seven ∷ []) (some 4) empty_shop).1

abbrev fresh : Checkout
fresh = new_checkout 1 10 2 3 5000 2100 (7 ∷ []) (some 4) 0 1800000

opened_run :
    open_tx 0 30 1 2 (10 ∷ []) 2 3 (7 ∷ []) (due_seven ∷ []) (some 4) empty_shop
    ≡ (ok (fresh, false), opened)
unfolding open_tx open_checkouts unique_checkout_reference in_order item_rows checkout_fee
    mul_div_round_half_up assert_kobo allocate insert_id sort_ids same_ids
opened_run = refl

some_due : in_order (7 ∷ []) (due_seven ∷ []) ≢ []
unfolding in_order
some_due e = absurd cc

safe_sum : sum (map due_amount (in_order (7 ∷ []) (due_seven ∷ []))) ≤ max_safe_integer
unfolding in_order
safe_sum = omega arith

open_tx-lines_example :
    (checkout_fee 5000 ≡ ok 2100)
    × (◌≡◌ {A = ℕ} 5000 5000)
    × (◌≡◌ {A = ℕ} 7100 (5000 + 2100))
    × ((lines : List CheckoutItem) × (opened.checkout_items ≡ lines ++ [])
        × (map (λ (d : Due). d.id) (in_order (7 ∷ []) (due_seven ∷ [])) ≡ 7 ∷ [])
        × Lists 1 (in_order (7 ∷ []) (due_seven ∷ [])) lines
        × (sum_by item_fee lines ≡ 2100)
        × (sum_by item_face lines ≡ sum_by due_amount (in_order (7 ∷ []) (due_seven ∷ []))))
open_tx-lines_example =
    open_tx-lines 0 30 1 2 (10 ∷ []) 2 3 (7 ∷ []) (due_seven ∷ []) (some 4) empty_shop (λ e. cc)
      (refl, tt) safe_sum opened_run
