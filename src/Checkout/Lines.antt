-- ===== src/Checkout/Lines.antt =====
-- The lines of a new checkout (src/services/checkout.service.ts) and its fee.
use duevy_be.Base.{
  ℕ, ◌+◌, ◌*◌, ◌≤◌, ◌≡◌, ◌≢◌, refl, ◌∙◌, false, find?, find?-holds, ==→eq, ◌==◌, true, All, sym,
  map, length, sum, sum_by, length-map, Option, List, [], ◌∷◌, ◌++◌, Option-cases, inl, inr, arith,
}
use duevy_be.Base.Results.{ok, Result-cases}
use duevy_be.Money.{checkout_fee, max_safe_integer}
use duevy_be.Money.Allocate.Shares.{allocate_conserves}
use duevy_be.Store.{Db, Checkout, CheckoutItem, Due}
use duevy_be.Withdrawal.Payouts.{taken}
use duevy_be.Checkout.Create.{
  item_rows, due_amount, open_tx, open_checkouts, same_ids, sort_ids, in_order,
  unique_checkout_reference, new_checkout,
}

abbrev pub item_fee : CheckoutItem → ℕ
item_fee i = i.fee_kobo

abbrev pub item_face : CheckoutItem → ℕ
item_face i = i.face_kobo

item_rows-sums :
    (id : ℕ) (ds : List Due) (shares : List ℕ)
    → length shares ≡ length ds
    → (sum_by item_fee (item_rows id ds shares) ≡ sum shares)
      × (sum_by item_face (item_rows id ds shares) ≡ sum_by due_amount ds)
unfolding item_rows
item_rows-sums id [] [] h = (refl, refl)
item_rows-sums id [] (s ∷ ss) h = absurd (omega (arith, h))
item_rows-sums id (d ∷ ds) [] h = absurd (omega (arith, h))
item_rows-sums id (d ∷ ds) (s ∷ ss) h =
    let rest = item_rows-sums id ds ss (omega (arith, h)) in
    (omega (arith, rest.0), omega (arith, rest.1))

-- The lines are those of the dues, one for each and in their order.
abbrev pub Lists : ℕ → List Due → List CheckoutItem → Type 0
Lists id [] [] = Unit
Lists id [] (i ∷ is) = ⊥
Lists id (d ∷ ds) [] = ⊥
Lists id (d ∷ ds) (i ∷ is) =
    ((i.checkout_id ≡ id) × (i.due_id ≡ d.id) × (i.face_kobo ≡ d.amount)) × Lists id ds is

item_rows-Lists :
    (id : ℕ) (ds : List Due) (shares : List ℕ)
    → length shares ≡ length ds
    → Lists id ds (item_rows id ds shares)
unfolding item_rows
item_rows-Lists id [] [] h = tt
item_rows-Lists id [] (s ∷ ss) h = absurd (omega (arith, h))
item_rows-Lists id (d ∷ ds) [] h = absurd (omega (arith, h))
item_rows-Lists id (d ∷ ds) (s ∷ ss) h =
    ((refl, refl, refl), item_rows-Lists id ds ss (omega (arith, h)))

-- The dues in the order of the ids, where each id has its due.
in_order-ids :
    (ids : List ℕ) (dues : List Due)
    → All (λ id. taken (find? (λ (d : Due). d.id == id) dues) ≡ true) ids
    → map (λ (d : Due). d.id) (in_order ids dues) ≡ ids
unfolding in_order
in_order-ids [] dues all = refl
in_order-ids (id ∷ ids) dues (here, all) =
    elim (Option-cases (find? (λ (d : Due). d.id == id) dues)) [
      | inl gone ↦ absurd (ground (arith, gone, here))
      | inr (d, there) ↦
          let own = ==→eq d.id id (find?-holds (λ (d : Due). d.id == id) dues {a = d} there) in
          ground (arith, there, own, in_order-ids ids dues all)
    ]

some_amount :
    (ids : List ℕ) (dues : List Due)
    → All (λ id. taken (find? (λ (d : Due). d.id == id) dues) ≡ true) ids
    → ids ≢ []
    → map due_amount (in_order ids dues) ≢ []
some_amount ids dues all some_id none_there =
    some_id (sym (in_order-ids ids dues all) ∙ no_ids (in_order ids dues) none_there)
  where
    no_ids : (ds : List Due) → map due_amount ds ≡ [] → map (λ (d : Due). d.id) ds ≡ []
    no_ids [] e = refl
    no_ids (d ∷ ds) e = absurd cc

fee_is_safe : (face : ℕ) {fee : ℕ} → checkout_fee face ≡ ok fee → fee ≤ max_safe_integer
unfolding checkout_fee
fee_is_safe face h = ground arith

-- Ask for one due or more, each of them among the dues that were read, with amounts that add up to a
-- safe integer. When the transaction of `createCheckout` answers with a new checkout, its fee is the fee
-- of its face value, its face value is the sum of the amounts of the dues that were read, and its total
-- is the two together. The rows written are one line for each id, in the order asked for: it names the
-- checkout and the due, and has the due's amount. The fees of the lines add up to the checkout's fee
-- exactly, and their amounts to those of the dues asked for.
pub open_tx-lines :
    (now minutes id txn_id : ℕ) (candidates : List ℕ) (user space : ℕ) (due_ids : List ℕ)
    (dues : List Due) (account : Option ℕ) (db : Db) {c : Checkout} {db' : Db}
    → due_ids ≢ []
    → All (λ id. taken (find? (λ (d : Due). d.id == id) dues) ≡ true) due_ids
    → sum (map due_amount (in_order due_ids dues)) ≤ max_safe_integer
    → open_tx now minutes id txn_id candidates user space due_ids dues account db
      ≡ (ok (c, false), db')
    → (checkout_fee c.face_kobo ≡ ok c.fee_kobo)
      × (c.face_kobo ≡ sum_by due_amount dues)
      × (c.total_kobo ≡ c.face_kobo + c.fee_kobo)
      × ((lines : List CheckoutItem) × (db'.checkout_items ≡ lines ++ db.checkout_items)
          × (map (λ (d : Due). d.id) (in_order due_ids dues) ≡ due_ids)
          × Lists c.id (in_order due_ids dues) lines
          × (sum_by item_fee lines ≡ c.fee_kobo)
          × (sum_by item_face lines ≡ sum_by due_amount (in_order due_ids dues)))
unfolding open_tx
open_tx-lines now minutes id txn_id candidates user space due_ids dues account db {c} {db'} some_due
      there fits done =
    elim (Option-cases (
      find? (λ (k : Checkout). same_ids k.due_set_key (sort_ids due_ids))
        (open_checkouts now user due_ids db))) [
          | inr (same, there) ↦ absurd (ground arith)
          | inl no_same ↦ elim (Result-cases (checkout_fee (sum_by due_amount dues))) [
            | inr (x, thrown) ↦ absurd (ground arith)
            | inl (fee, charged) ↦
                let (shares, shared, count, total) =
                  allocate_conserves fee (map due_amount (in_order due_ids dues))
                    (fee_is_safe (sum_by due_amount dues) charged) fits
                    (some_amount due_ids dues there some_due) in
                let (fees, faces) =
                  item_rows-sums id (in_order due_ids dues) shares
                    (count ∙ length-map due_amount (in_order due_ids dues)) in
                elim (Result-cases (unique_checkout_reference candidates db)) [
                  | inr (x, thrown) ↦ absurd (ground (arith, shared))
                  | inl (reference, named) ↦
                      let is : c
                          ≡ new_checkout id reference user space (sum_by due_amount dues) fee
                              (sort_ids due_ids) account now (now + minutes * 60000) =
                        ground (arith, shared) in
                      (
                        simp (is) charged,
                        ground (arith, is),
                        ground (arith, is),
                        (
                          item_rows id (in_order due_ids dues) shares,
                          ground (arith, shared),
                          in_order-ids due_ids dues there,
                          simp (is) (
                              item_rows-Lists id (in_order due_ids dues) shares
                                (count ∙ length-map due_amount (in_order due_ids dues))),
                          ground (arith, is, fees, total),
                          faces,
                        ),
                      )
                ]
          ]
        ]
