-- ===== src/Beneficiary/Listed.antt =====
-- How many beneficiaries a space has, and how often an account is among them
-- (src/services/beneficiary.service.ts).
use duevy_be.Base.{
  ℕ, ◌≤◌, ◌≡◌, refl, Bool, false, ◌&&◌, ◌==◌, leb, keep, find?, length, none, List, [], ◌∷◌,
  Bool-cases, inl, inr, arith,
}
use duevy_be.Base.Table.{update_by}
use duevy_be.Beneficiary.{
  PayoutBeneficiary, BankCalls, of_space, is_account, list_beneficiaries, max_beneficiaries,
  beneficiary_id,
}

-- How many rows pass a test.
abbrev pub count : (PayoutBeneficiary → Bool) → List PayoutBeneficiary → ℕ
count p bs = length (keep p bs)

abbrev pub is_copy : BankCalls → ℕ → ℕ → ℕ → PayoutBeneficiary → Bool
is_copy calls space bank number b = of_space space b && is_account calls bank number b

-- No space has more than 25 beneficiaries, and none has an account twice.
pub record IsListed (calls : BankCalls) (bs : List PayoutBeneficiary) : Type 0 where
  pub few : (space : ℕ) → count (of_space space) bs ≤ max_beneficiaries
  pub single : (space bank number : ℕ) → count (is_copy calls space bank number) bs ≤ 1

pub count-keep :
    (p q : PayoutBeneficiary → Bool) (bs : List PayoutBeneficiary)
    → count p (keep q bs) ≤ count p bs
count-keep p q [] = omega arith
count-keep p q (b ∷ bs) = ground (arith, count-keep p q bs)

count-update_by :
    (p : PayoutBeneficiary → Bool) (id : ℕ) (f : PayoutBeneficiary → PayoutBeneficiary)
    (bs : List PayoutBeneficiary)
    → ((b : PayoutBeneficiary) → p (f b) ≡ p b)
    → count p (update_by beneficiary_id id f bs) ≡ count p bs
unfolding update_by
count-update_by p id f [] same = refl
count-update_by p id f (b ∷ bs) same = ground (arith, same b, count-update_by p id f bs same)

count-find? :
    (p q : PayoutBeneficiary → Bool) (bs : List PayoutBeneficiary)
    → find? p (keep q bs) ≡ none
    → count (λ b. q b && p b) bs ≡ 0
count-find? p q [] h = refl
count-find? p q (b ∷ bs) h = elim (Bool-cases (q b)) [
  | inr out ↦ ground (arith, count-find? p q bs)
  | inl in_it ↦ elim (Bool-cases (p b)) [
    | inl found ↦ absurd (ground arith)
    | inr other ↦ ground (arith, count-find? p q bs)
  ]
]

-- Changing a label or a destination.
pub changed-IsListed :
    (calls : BankCalls) (id : ℕ) (f : PayoutBeneficiary → PayoutBeneficiary)
    (bs : List PayoutBeneficiary)
    → ((space : ℕ) (b : PayoutBeneficiary) → of_space space (f b) ≡ of_space space b)
    → ((space bank number : ℕ) (b : PayoutBeneficiary)
        → is_copy calls space bank number (f b) ≡ is_copy calls space bank number b)
    → IsListed calls bs
    → IsListed calls (update_by beneficiary_id id f bs)
changed-IsListed calls id f bs here copies h = record {
  few = λ space. omega (arith, h.few space, count-update_by (of_space space) id f bs (here space));
  single = λ space bank number. omega (
    arith,
    h.single space bank number,
    count-update_by (is_copy calls space bank number) id f bs (copies space bank number),
  );
}

-- A new row for an account that its space does not have, in a space that has room.
pub added-IsListed :
    (calls : BankCalls) (row : PayoutBeneficiary) (space bank number : ℕ)
    (bs : List PayoutBeneficiary)
    → row.space_id ≡ space
    → row.bank_code ≡ bank
    → calls.decrypt row.account_number ≡ number
    → find? (is_account calls bank number) (list_beneficiaries space bs) ≡ none
    → leb max_beneficiaries (length (list_beneficiaries space bs)) ≡ false
    → IsListed calls bs
    → IsListed calls (row ∷ bs)
unfolding list_beneficiaries
added-IsListed calls row space bank number bs hs hb hn new room h =
    let none_yet = count-find? (is_account calls bank number) (of_space space) bs new in
    record {
      few = λ s. elim (Bool-cases (row.space_id == s)) [
        | inl here ↦ ground (arith, h.few s)
        | inr other ↦ ground (arith, h.few s)
      ];
      single = λ s b n. elim (Bool-cases (is_copy calls s b n row)) [
        | inr other ↦ ground (arith, h.single s b n)
        | inl copy ↦ ground (arith, h.single s b n, none_yet)
      ];
    }
