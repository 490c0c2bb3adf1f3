-- ===== src/Beneficiary/Room.antt =====
-- The operations of src/services/beneficiary.service.ts, one after the other, and the list of each
-- space.
use duevy_be.Base.{
  ℕ, ◌≡◌, refl, Bool, true, false, ◌&&◌, ◌==◌, leb, not, keep, find?, length, holds, Option, none,
  some, List, [], ◌∷◌, Bool-cases, Option-cases, inl, inr, arith,
}
use duevy_be.Base.Results.{app_error, Code}
use duevy_be.Base.Table.{update_by}
use duevy_be.Base.Stateful.Keeps.{
  Keeps, pure-Keeps, raise_if-Keeps, or_raise-Keeps, lift-Keeps, modify-Keeps, if-Keeps, bind-Keeps,
  then-Keeps, gets-Keeps, option-Keeps,
}
use duevy_be.Beneficiary.{
  PayoutBeneficiary, NewBeneficiary, ResolvedBankDetails, BankCalls, Deciphers, is_account,
  list_beneficiaries, find_duplicate_or_assert_room, max_beneficiaries, add_tx, add_beneficiary,
  new_row, labelled, refresh_label, with_label, beneficiary_id, remove_beneficiary, destination_for,
  with_destination, resolve_bank_details,
}
use duevy_be.Beneficiary.Listed.{IsListed, count-keep, changed-IsListed, added-IsListed}

module _ (calls : BankCalls) where
  refresh_label-Keeps :
      (b : PayoutBeneficiary) (label : Option ℕ) → Keeps (IsListed calls) (refresh_label b label)
  unfolding refresh_label
  refresh_label-Keeps b none = pure-Keeps b
  refresh_label-Keeps b (some label) = if-Keeps (holds label b.label) _ _ (pure-Keeps b) (
      then-Keeps _ _
        (modify-Keeps (update_by beneficiary_id b.id (with_label label)) λ bs h.
          changed-IsListed calls b.id (with_label label) bs (λ s c. refl) (λ s k n c. refl) h)
        (pure-Keeps (with_label label b)))

  labelled-Keeps :
      (label : Option ℕ) (r : PayoutBeneficiary × Bool)
      → Keeps (IsListed calls) (labelled calls label r)
  unfolding labelled
  labelled-Keeps label (b, true) = pure-Keeps (b, true)
  labelled-Keeps label (b, false) =
      bind-Keeps _ _ (refresh_label-Keeps b label) λ c. pure-Keeps (c, false)

  find_duplicate-Keeps :
      (space bank number : ℕ)
      → Keeps (IsListed calls) (find_duplicate_or_assert_room calls space bank number)
  unfolding find_duplicate_or_assert_room
  find_duplicate-Keeps space bank number = gets-Keeps (list_beneficiaries space) _ λ existing.
      option-Keeps (find? (is_account calls bank number) existing) _ _
        (then-Keeps _ _
          (raise_if-Keeps (leb max_beneficiaries (length existing))
            (app_error 409 Code.too_many_beneficiaries))
          (pure-Keeps none))
        λ b. pure-Keeps (some b)

  add_tx-Keeps :
      (row : PayoutBeneficiary) (space bank number : ℕ)
      → row.space_id ≡ space
      → row.bank_code ≡ bank
      → calls.decrypt row.account_number ≡ number
      → Keeps (IsListed calls) (add_tx calls row space bank number)
  unfolding add_tx find_duplicate_or_assert_room
  add_tx-Keeps row space bank number hs hb hn = record {
    keeps = λ bs h.
        let existing = list_beneficiaries space bs in
        elim (Option-cases (find? (is_account calls bank number) existing)) [
          | inr (b, known) ↦
              let is : (add_tx calls row space bank number bs).1 ≡ bs = ground arith in rw is h
          | inl new ↦ elim (Bool-cases (leb max_beneficiaries (length existing))) [
            | inl full ↦
                let is : (add_tx calls row space bank number bs).1 ≡ bs = ground arith in rw is h
            | inr room ↦
                let is : (add_tx calls row space bank number bs).1 ≡ row ∷ bs = ground arith in
                rw is (added-IsListed calls row space bank number bs hs hb hn new room h)
          ]
        ];
  }

  add_beneficiary-Keeps :
      Deciphers calls
      → (id nonce : ℕ) (input : NewBeneficiary)
      → Keeps (IsListed calls) (add_beneficiary calls id nonce input)
  unfolding add_beneficiary
  add_beneficiary-Keeps ciphers id nonce input =
      bind-Keeps _ _ (find_duplicate-Keeps input.space_id input.bank_code input.account_number)
        λ known.
          option-Keeps known _ _
            (bind-Keeps _ _
              (lift-Keeps (resolve_bank_details calls input.bank_code input.account_number))
              λ bank.
                bind-Keeps _ _
                  (lift-Keeps (
                    calls.register_destination input.actor_account input.bank_code
                      input.account_number bank.account_name))
                  λ destination.
                    bind-Keeps _ _
                      (add_tx-Keeps (new_row calls id nonce input bank destination) input.space_id
                        input.bank_code input.account_number refl refl
                        (ciphers nonce input.account_number))
                      (labelled-Keeps input.label))
            λ b. labelled-Keeps input.label (b, false)

  destination_for-Keeps :
      (b : PayoutBeneficiary) (account : ℕ)
      → Keeps (IsListed calls) (destination_for calls b account)
  unfolding destination_for
  destination_for-Keeps b account =
      option-Keeps _ _ _
        (bind-Keeps _ _
          (lift-Keeps (
            calls.register_destination account b.bank_code (calls.decrypt b.account_number)
              b.account_name))
          λ destination.
            then-Keeps _ _
              (modify-Keeps
                (update_by beneficiary_id b.id (with_destination calls destination account))
                λ bs h.
                  changed-IsListed calls b.id (with_destination calls destination account) bs
                    (λ s c. refl) (λ s k n c. refl) h)
              (pure-Keeps destination))
        λ destination. pure-Keeps destination

  remove_beneficiary-Keeps : (space id : ℕ) → Keeps (IsListed calls) (remove_beneficiary space id)
  unfolding remove_beneficiary
  remove_beneficiary-Keeps space id =
      gets-Keeps (find? (λ (b : PayoutBeneficiary). b.id == id && (b.space_id == space))) _ λ found.
        bind-Keeps _ _ (or_raise-Keeps found (app_error 404 Code.not_found)) λ b.
          modify-Keeps (keep (λ (c : PayoutBeneficiary). not (c.id == b.id))) λ bs h. record {
            few = λ s.
                omega
                  (arith, h.few s, count-keep _ (λ (c : PayoutBeneficiary). not (c.id == b.id)) bs);
            single = λ s k n. omega (
              arith,
              h.single s k n,
              count-keep _ (λ (c : PayoutBeneficiary). not (c.id == b.id)) bs,
            );
          }

-- A request; the ids and nonces drawn stand in it.
pub data Move : Type 0 where
  add : ℕ → ℕ → NewBeneficiary → Move
  remove : ℕ → ℕ → Move
  pay : PayoutBeneficiary → ℕ → Move
  -- The last part of an addition, when others came between its check and its transaction.
  finish_add : ℕ → ℕ → NewBeneficiary → ResolvedBankDetails → ℕ → Move

unfoldable pub apply : BankCalls → Move → List PayoutBeneficiary → List PayoutBeneficiary
apply calls (add id nonce input) bs = (add_beneficiary calls id nonce input bs).1
apply calls (remove space id) bs = (remove_beneficiary space id bs).1
apply calls (pay b account) bs = (destination_for calls b account bs).1
apply calls (finish_add id nonce input bank destination) bs =
    (add_tx calls (new_row calls id nonce input bank destination) input.space_id input.bank_code
      input.account_number bs).1

unfoldable pub run : BankCalls → List Move → List PayoutBeneficiary → List PayoutBeneficiary
run calls [] bs = bs
run calls (m ∷ moves) bs = run calls moves (apply calls m bs)

-- When account numbers decipher to what they were, no order of additions, removals and payments, with
-- other requests between the check and the transaction of an addition, makes a space have more than 25
-- beneficiaries or the same account twice.
pub run-IsListed :
    (calls : BankCalls)
    → Deciphers calls
    → (moves : List Move) (bs : List PayoutBeneficiary) → IsListed calls bs
    → IsListed calls (run calls moves bs)
unfolding run apply
run-IsListed calls ciphers [] bs h = h
run-IsListed calls ciphers (add id nonce input ∷ moves) bs h =
    run-IsListed calls ciphers moves _
      ((add_beneficiary-Keeps calls ciphers id nonce input).keeps bs h)
run-IsListed calls ciphers (remove space id ∷ moves) bs h =
    run-IsListed calls ciphers moves _ ((remove_beneficiary-Keeps calls space id).keeps bs h)
run-IsListed calls ciphers (pay b account ∷ moves) bs h =
    run-IsListed calls ciphers moves _ ((destination_for-Keeps calls b account).keeps bs h)
run-IsListed calls ciphers (finish_add id nonce input bank destination ∷ moves) bs h =
    run-IsListed calls ciphers moves _ (
      (add_tx-Keeps calls (new_row calls id nonce input bank destination) input.space_id
          input.bank_code input.account_number refl refl (ciphers nonce input.account_number)).keeps
        bs h)
