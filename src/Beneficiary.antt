-- ===== src/Beneficiary.antt =====
-- src/services/beneficiary.service.ts: the bank accounts that a space can withdraw to. The state is the
-- table of them, the newest first. The calls of the provider and the cipher of account numbers are
-- arguments; the audit entry and the mails are left out.
pub mod Listed
pub mod Room
use duevy_be.Base.{
  ℕ, ◌≡◌, Bool, true, false, ◌&&◌, ◌==◌, leb, not, keep, find?, length, holds, if◌then◌else◌,
  Option, none, some, List, [], ◌∷◌,
}
use duevy_be.Base.Results.{Result, ok, err, app_error, Code}
use duevy_be.Base.Table.{find_by, update_by}
use duevy_be.Base.Stateful.{
  Stateful, pure, raise, gets, lift, or_raise, transaction, ◌>>=◌, ◌>>◌, raise_if, modify,
}

abbrev pub max_beneficiaries : ℕ
max_beneficiaries = 25

pub record PayoutBeneficiary : Type 0 where
  pub id : ℕ
  pub space_id : ℕ
  pub label : Option ℕ
  pub bank_code : ℕ
  pub bank_name : ℕ
  -- The encrypted number.
  pub account_number : ℕ
  pub account_number_masked : ℕ
  pub account_name : ℕ
  pub bachs_destination_id : Option ℕ
  pub bachs_account_id : Option ℕ
  pub created_by_id : Option ℕ

abbrev pub Beneficiaries : Type 0 → Type 0
Beneficiaries A = Stateful (List PayoutBeneficiary) A

pub record ResolvedBankDetails : Type 0 where
  pub bank_name : ℕ
  pub account_name : ℕ

-- The banks by code, the name enquiry (an account may be unknown to the bank), the registration of a
-- destination, and the cipher with the nonce that it draws.
pub record BankCalls : Type 0 where
  pub bank_names : ℕ → Option ℕ
  pub resolve_account : ℕ → ℕ → Result (Option ℕ)
  pub register_destination : ℕ → ℕ → ℕ → ℕ → Result ℕ
  pub encrypt : ℕ → ℕ → ℕ
  pub decrypt : ℕ → ℕ
  pub mask : ℕ → ℕ

abbrev pub Deciphers : BankCalls → Type 0
Deciphers calls = (nonce number : ℕ) → calls.decrypt (calls.encrypt nonce number) ≡ number

pub record NewBeneficiary : Type 0 where
  pub space_id : ℕ
  pub actor_id : ℕ
  pub actor_account : ℕ
  pub bank_code : ℕ
  pub account_number : ℕ
  -- Trimmed; an empty one is absent.
  pub label : Option ℕ

pub record OneOff : Type 0 where
  pub bank : ResolvedBankDetails
  pub account_number_masked : ℕ
  pub destination_id : ℕ

abbrev pub of_space : ℕ → PayoutBeneficiary → Bool
of_space space b = b.space_id == space

unfoldable pub list_beneficiaries : ℕ → List PayoutBeneficiary → List PayoutBeneficiary
list_beneficiaries space = keep (of_space space)

abbrev pub beneficiary_id : PayoutBeneficiary → ℕ
beneficiary_id b = b.id

abbrev pub with_label : ℕ → PayoutBeneficiary → PayoutBeneficiary
with_label label b = record b { label = some label }

-- `label && label !== b.label ? update : b`
unfoldable pub refresh_label : PayoutBeneficiary → Option ℕ → Beneficiaries PayoutBeneficiary
refresh_label b none = pure b
refresh_label b (some label) =
    if holds label b.label
    then pure b
    else modify (update_by beneficiary_id b.id (with_label label)) >> pure (with_label label b)

module _ (calls : BankCalls) where
  unfoldable pub resolve_bank_details : ℕ → ℕ → Result ResolvedBankDetails
  resolve_bank_details bank number = elim (calls.bank_names bank) [
    | none ↦ err (app_error 400 Code.validation_error)
    | some name ↦ elim (calls.resolve_account bank number) [
      | err e ↦ err e
      | ok none ↦ err (app_error 422 Code.account_unverifiable)
      | ok (some account_name) ↦ ok record { bank_name = name; account_name = account_name }
    ]
  ]

  abbrev pub is_account : ℕ → ℕ → PayoutBeneficiary → Bool
  is_account bank number b = b.bank_code == bank && (calls.decrypt b.account_number == number)

  -- The beneficiary that the space has for the account, or an error when it has no room.
  unfoldable pub find_duplicate_or_assert_room :
      ℕ → ℕ → ℕ → Beneficiaries (Option PayoutBeneficiary)
  find_duplicate_or_assert_room space bank number = do
    existing ← gets (list_beneficiaries space)
    elim (find? (is_account bank number) existing) [
      | some b ↦ pure (some b)
      | none ↦
          raise_if (leb max_beneficiaries (length existing))
            (app_error 409 Code.too_many_beneficiaries)
          >> pure none
    ]

  abbrev pub new_row : ℕ → ℕ → NewBeneficiary → ResolvedBankDetails → ℕ → PayoutBeneficiary
  new_row id nonce input bank destination = record {
    id = id;
    space_id = input.space_id;
    label = input.label;
    bank_code = input.bank_code;
    bank_name = bank.bank_name;
    account_number = calls.encrypt nonce input.account_number;
    account_number_masked = calls.mask input.account_number;
    account_name = bank.account_name;
    bachs_destination_id = some destination;
    bachs_account_id = some input.actor_account;
    created_by_id = some input.actor_id;
  }

  -- Under the lock of the space: the check again, and the row.
  unfoldable pub add_tx : PayoutBeneficiary → ℕ → ℕ → ℕ → Beneficiaries (PayoutBeneficiary × Bool)
  unfolding find_duplicate_or_assert_room
  add_tx row space bank number = transaction (
      find_duplicate_or_assert_room space bank number >>= λ duplicate. elim duplicate [
        | some b ↦ pure (b, false)
        | none ↦ modify (λ bs. row ∷ bs) >> pure (row, true)
      ])

  -- A row that was there gets the new label.
  unfoldable pub labelled :
      Option ℕ → PayoutBeneficiary × Bool → Beneficiaries (PayoutBeneficiary × Bool)
  labelled label (b, true) = pure (b, true)
  labelled label (b, false) = refresh_label b label >>= λ c. pure (c, false)

  -- The id and the nonce come from outside. The answer says whether a row was added.
  unfoldable pub add_beneficiary : ℕ → ℕ → NewBeneficiary → Beneficiaries (PayoutBeneficiary × Bool)
  unfolding find_duplicate_or_assert_room add_tx labelled
  add_beneficiary id nonce input = do
    known ← find_duplicate_or_assert_room input.space_id input.bank_code input.account_number
    elim known [
      | some b ↦ labelled input.label (b, false)
      | none ↦ lift (resolve_bank_details input.bank_code input.account_number) >>= λ bank.
          lift (
            calls.register_destination input.actor_account input.bank_code input.account_number
              bank.account_name)
          >>= λ destination.
              add_tx (new_row id nonce input bank destination) input.space_id input.bank_code
                input.account_number
              >>= labelled input.label
    ]

  abbrev pub with_destination : ℕ → ℕ → PayoutBeneficiary → PayoutBeneficiary
  with_destination destination account b = record b {
    bachs_destination_id = some destination;
    bachs_account_id = some account;
  }

  -- Registered again when the space's account at the provider is another one.
  unfoldable pub destination_for : PayoutBeneficiary → ℕ → Beneficiaries ℕ
  destination_for b account = elim (known b.bachs_destination_id b.bachs_account_id) [
    | some destination ↦ pure destination
    | none ↦
        lift (
          calls.register_destination account b.bank_code (calls.decrypt b.account_number)
            b.account_name)
        >>= λ destination.
            modify (update_by beneficiary_id b.id (with_destination destination account))
            >> pure destination
  ]
    where
      known : Option ℕ → Option ℕ → Option ℕ
      known none _ = none
      known (some destination) owner = if holds account owner then some destination else none

  -- A target that is not saved.
  unfoldable pub one_off_destination : ℕ → ℕ → ℕ → Result OneOff
  unfolding resolve_bank_details
  one_off_destination account bank number = elim (resolve_bank_details bank number) [
    | err e ↦ err e
    | ok found ↦ elim (calls.register_destination account bank number found.account_name) [
      | err e ↦ err e
      | ok destination ↦ ok record {
        bank = found;
        account_number_masked = calls.mask number;
        destination_id = destination;
      }
    ]
  ]

-- `findFirst({ where: { id, spaceId } })`, then `delete`.
unfoldable pub remove_beneficiary : ℕ → ℕ → Beneficiaries (Unit {0})
remove_beneficiary space id = do
  found ← gets (find? (λ (b : PayoutBeneficiary). b.id == id && (b.space_id == space)))
  b ← or_raise found (app_error 404 Code.not_found)
  modify (keep (λ (c : PayoutBeneficiary). not (c.id == b.id)))
