-- ===== src/Checkout/Create.antt =====
-- Opening a checkout: `createCheckout` and `openCollectionAccount` of
-- src/services/checkout.service.ts, with `canCollect` of src/services/kyc.service.ts. The provider's
-- answer, the new id, the six candidate references and the configured minutes are arguments.
use duevy_be.Base.{
  ℕ, ◌+◌, ◌-◌, ◌*◌, Bool, true, false, ◌&&◌, ◌||◌, ◌==◌, leb, ltb, not, keep, find?, map, sum_by,
  take, length, mem?, if◌then◌else◌, Option, none, some, List, [], ◌∷◌, ◌++◌,
}
use duevy_be.Base.Int.{pos, ◌-ℤ◌}
use duevy_be.Base.Results.{
  Result, ok, err, app_error, Code, plain_error, provider_refused, provider_unavailable,
}
use duevy_be.Money.{checkout_fee}
use duevy_be.Money.Allocate.{allocate}
use duevy_be.StateMachine.{CheckoutStatus, is_checkout}
use duevy_be.Store.{
  Db, Checkout, CheckoutItem, Due, DueStatus, User, SpaceRep, Membership, Transaction, TxnStatus,
  KycStatus, StudentIdStatus,
}
use duevy_be.Store.Action.{
  Action, pure, raise, gets, lift, or_raise, ◌>>=◌, ◌>>◌, raise_if, modify, transaction,
  ignore_errors,
}
use duevy_be.Signatory.{find_space, find_user, unique}
use duevy_be.Withdrawal.Payouts.{is_lead, taken}
use duevy_be.Withdrawal.Dispatch.{Reply, reply, refused, unavailable}
use duevy_be.Checkout.Outcomes.{update_checkout, expire_checkout, find_paid, is_empty}

abbrev pub max_dues_per_checkout : ℕ
max_dues_per_checkout = 20

abbrev pub opening_grace_ms : ℕ
opening_grace_ms = 30000

abbrev pub is_verified : KycStatus → Bool
is_verified KycStatus.verified = true
is_verified _ = false

abbrev pub is_approved_id : Option StudentIdStatus → Bool
is_approved_id (some StudentIdStatus.approved) = true
is_approved_id _ = false

unfoldable pub can_collect : User → Bool
can_collect u =
    is_verified u.kyc_status && (taken u.bachs_account_id && is_approved_id u.student_id_status)

unfoldable pub can_withdraw : User → Bool
unfolding can_collect
can_withdraw u = can_collect u && u.bachs_payouts_active

-- `[...dueIds].sort()`
unfoldable pub insert_id : ℕ → List ℕ → List ℕ
insert_id k [] = k ∷ []
insert_id k (x ∷ xs) = let rest = insert_id k xs in if leb k x then k ∷ x ∷ xs else x ∷ rest

unfoldable pub sort_ids : List ℕ → List ℕ
sort_ids [] = []
sort_ids (x ∷ xs) = insert_id x (sort_ids xs)

unfoldable pub same_ids : List ℕ → List ℕ → Bool
same_ids [] [] = true
same_ids (x ∷ xs) (y ∷ ys) = x == y && same_ids xs ys
same_ids _ _ = false

abbrev pub is_active_due : Due → Bool
is_active_due d = elim d.status [
  | DueStatus.draft ↦ false
  | DueStatus.active ↦ true
  | DueStatus.closed ↦ false
]

-- `new Set(dues.map((d) => d.spaceId)).size > 1`
abbrev pub has_other_space : ℕ → List Due → Bool
has_other_space space dues = taken (find? (λ (d : Due). not (d.space_id == space)) dues)

-- `dueIds.map((id) => dues.find((d) => d.id === id)!)`
unfoldable pub in_order : List ℕ → List Due → List Due
in_order [] dues = []
in_order (id ∷ ids) dues =
    let rest = in_order ids dues in
    elim (find? (λ (d : Due). d.id == id) dues) [ none ↦ rest | some d ↦ d ∷ rest ]

abbrev pub first : List Due → Option Due
first [] = none
first (d ∷ ds) = some d

abbrev pub lead_rep : ℕ → Db → Option SpaceRep
lead_rep space db = find? (λ (r : SpaceRep). r.space_id == space && is_lead r.role) db.reps

abbrev pub collects : Option User → Bool
collects none = false
collects (some u) = can_collect u

-- `tx.checkout.findMany`: the student's open payments that share a due with this one.
unfoldable pub open_checkouts : ℕ → ℕ → List ℕ → Db → List Checkout
open_checkouts now user due_ids db =
    keep
      (λ (c : Checkout).
        c.user_id == user
        && is_checkout c.status CheckoutStatus.pending
        && ltb now c.expires_at
        && taken (
            find? (λ (i : CheckoutItem). i.checkout_id == c.id && mem? i.due_id due_ids)
              db.checkout_items))
      db.checkouts

-- The first of six candidates that no checkout and no transaction has.
unfoldable pub unique_checkout_reference : List ℕ → Db → Result ℕ
unique_checkout_reference candidates db = elim (find? (λ r. not (in_use r)) (take 6 candidates)) [
  | none ↦ err plain_error
  | some r ↦ ok r
]
  where
    in_use : ℕ → Bool
    in_use r =
        taken (find? (λ (c : Checkout). c.reference == r) db.checkouts)
        || taken (find? (λ (t : Transaction). t.reference == r) db.transactions)

-- One line for each due, with its share of the fee.
unfoldable pub item_rows : ℕ → List Due → List ℕ → List CheckoutItem
item_rows checkout (d ∷ ds) (share ∷ shares) =
    record { checkout_id = checkout; due_id = d.id; face_kobo = d.amount; fee_kobo = share }
    ∷ item_rows checkout ds shares
item_rows checkout _ _ = []

abbrev pub due_amount : Due → ℕ
due_amount d = d.amount

abbrev pub new_checkout : ℕ → ℕ → ℕ → ℕ → ℕ → ℕ → List ℕ → Option ℕ → ℕ → ℕ → Checkout
new_checkout id reference user space face fee key account now expires = record {
  id = id;
  reference = reference;
  user_id = user;
  space_id = space;
  status = CheckoutStatus.pending;
  face_kobo = face;
  fee_kobo = fee;
  total_kobo = face + fee;
  received_kobo = none;
  overpaid_kobo = 0;
  due_set_key = key;
  provider_checkout_id = none;
  provider_charge_id = none;
  destination_account_id = account;
  va_account_number = none;
  checkout_url = none;
  expires_at = expires;
  created_at = now;
  needs_review = false;
  review_reason = [];
}

-- What the provider answers when it opens the account.
pub record Account : Type 0 where
  pub provider_checkout_id : Option ℕ
  pub provider_charge_id : Option ℕ
  pub account_number : Option ℕ
  pub checkout_url : Option ℕ
  pub total_kobo : ℕ
  pub expires_at : ℕ

abbrev pub opened_row : Account → Checkout → Checkout
opened_row a c = record c {
  provider_checkout_id = a.provider_checkout_id;
  provider_charge_id = a.provider_charge_id;
  va_account_number = a.account_number;
  checkout_url = a.checkout_url;
  expires_at = a.expires_at;
}

module _ (now minutes : ℕ) (fresh_id txn_id : ℕ) (candidates : List ℕ) where
  -- The transaction: the same open payment again, a refusal, or a new checkout with its lines.
  unfoldable pub open_tx : ℕ → ℕ → List ℕ → List Due → Option ℕ → Action (Checkout × Bool)
  open_tx user space due_ids dues account = transaction do
    let key = sort_ids due_ids
    already ← gets (open_checkouts now user due_ids)
    elim (find? (λ (c : Checkout). same_ids c.due_set_key key) already) [
      | some same ↦ pure (same, true)
      | none ↦ do
        raise_if (not (is_empty already)) (app_error 409 Code.checkout_overlap)
        let face = sum_by due_amount dues
        fee ← lift (checkout_fee face)
        let ordered = in_order due_ids dues
        shares ← lift (allocate fee (map due_amount ordered))
        found ← gets (unique_checkout_reference candidates)
        reference ← lift found
        let c =
            new_checkout fresh_id reference user space face fee key account now
              (now + minutes * 60000)
        modify (λ db. record db { checkouts = c ∷ db.checkouts })
        modify (λ db. record db {
          checkout_items = item_rows fresh_id ordered shares ++ db.checkout_items;
        })
        modify (λ db. record db {
          transactions =
              record {
                id = txn_id;
                user_id = user;
                space_id = some space;
                reference = reference;
                amount = pos 0 -ℤ pos (face + fee);
                status = TxnStatus.pending;
              }
              ∷ db.transactions;
        })
        pure (c, false)
    ]

  module _ (create_account : Checkout → Reply Account) where
    -- A definite refusal closes the checkout; a lost answer leaves it pending.
    unfoldable pub open_collection_account : Checkout → Bool → Action Checkout
    open_collection_account c reused = do
      raise_if (reused && ltb (now - c.created_at) opening_grace_ms)
          (app_error 409 Code.checkout_opening)
      raise_if (not (taken c.destination_account_id)) (app_error 409 Code.space_not_verified)
      elim (create_account c) [
        | refused ↦ ignore_errors (expire_checkout c.id (some 0)) >> raise provider_refused
        | unavailable ↦ raise provider_unavailable
        | reply a ↦
            if a.total_kobo == c.total_kobo
            then update_checkout c.id (opened_row a) >> pure (opened_row a c)
            else ignore_errors (expire_checkout c.id (some 1)) >> raise provider_refused
      ]

    unfoldable pub create_checkout : ℕ → List ℕ → Bool → Action (Checkout × Bool)
    create_checkout user_id requested guest = do
      let due_ids = unique requested
      raise_if (is_empty due_ids || ltb max_dues_per_checkout (length due_ids))
          (app_error 400 Code.validation_error)
      user ← gets (λ db. find_user user_id db.users)
      raise_if (not (taken user)) (app_error 404 Code.not_found)
      dues ← gets (λ db. keep (λ (d : Due). mem? d.id due_ids) db.dues)
      raise_if (not (length dues == length due_ids)) (app_error 404 Code.not_found)
      d ← or_raise (first dues) plain_error
      raise_if (has_other_space d.space_id dues) (app_error 422 Code.mixed_spaces)
      found ← gets (λ db. find_space d.space_id db.spaces)
      space ← or_raise found plain_error
      raise_if space.is_archived (app_error 409 Code.space_archived)
      raise_if (taken (find? (λ (e : Due). not (is_active_due e)) dues))
          (app_error 409 Code.due_not_payable)
      member ← gets (λ db.
          find? (λ (m : Membership). m.user_id == user_id && (m.space_id == space.id))
            db.memberships)
      raise_if (guest && taken (find? (λ (e : Due). not e.allow_guests) dues))
          (app_error 403 Code.guests_not_allowed)
      raise_if (not guest && not (taken member)) (app_error 403 Code.not_a_member)
      paid ← gets (λ db. find? (λ due. taken (find_paid user_id due db.due_payments)) due_ids)
      raise_if (taken paid) (app_error 409 Code.due_already_paid)
      lead ← gets (lead_rep space.id)
      rep ← or_raise lead (app_error 409 Code.space_not_verified)
      owner ← gets (λ db. find_user rep.user_id db.users)
      raise_if (not (collects owner)) (app_error 409 Code.space_not_verified)
      account ← or_raise owner (app_error 409 Code.space_not_verified)
      opened ← open_tx user_id space.id due_ids dues account.bachs_account_id
      if taken opened.0.va_account_number || taken opened.0.checkout_url
          then pure opened
          else (do ready ← open_collection_account opened.0 opened.1; pure (ready, opened.1))
