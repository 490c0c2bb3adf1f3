-- ===== src/Referral/Once.antt =====
-- A referral is paid once (src/services/referral.service.ts).
use duevy_be.Base.{
  ℕ, ◌+◌, ◌*◌, ◌≤◌, ◌≡◌, refl, ◌&&◌, ◌==◌, find?, sum_by, length, if◌then◌else◌, Option, none, some,
  List, [], ◌∷◌, Bool-cases, inl, inr, arith,
}
use duevy_be.Referral.{
  Referral, DiscountCode, ReferralDb, referral_reward_kobo, is_joined, is_paid_out, is_claimable,
  claim_referral, pay_reward, award_tx, award_found, maybe_award_referral, unique_of, code_in_use,
  reference_in_use,
}

-- How many referrals were paid.
abbrev pub paid_out : List Referral → ℕ
paid_out = sum_by (λ (r : Referral). if is_paid_out r.status then 1 else 0)

-- A claim changes joined referrals to paid ones.
claim_referral-paid_out :
    (id : ℕ) (rs : List Referral)
    → paid_out (claim_referral id rs).1 ≡ (claim_referral id rs).0 + paid_out rs
unfolding claim_referral
claim_referral-paid_out id [] = refl
claim_referral-paid_out id (r ∷ rs) = elim (Bool-cases (is_claimable id r)) [
  | inl can ↦ ground (arith, claim_referral-paid_out id rs)
  | inr not_it ↦ ground (arith, claim_referral-paid_out id rs)
]

abbrev pub with_id : ℕ → List Referral → ℕ
with_id id = sum_by (λ (r : Referral). if r.id == id then 1 else 0)

claim_referral-with_id :
    (k id : ℕ) (rs : List Referral) → with_id k (claim_referral id rs).1 ≡ with_id k rs
unfolding claim_referral
claim_referral-with_id k id [] = refl
claim_referral-with_id k id (r ∷ rs) = elim (Bool-cases (is_claimable id r)) [
  | inl can ↦ ground (arith, claim_referral-with_id k id rs)
  | inr not_it ↦ ground (arith, claim_referral-with_id k id rs)
]

claim_referral_le : (id : ℕ) (rs : List Referral) → (claim_referral id rs).0 ≤ with_id id rs
unfolding claim_referral
claim_referral_le id [] = omega arith
claim_referral_le id (r ∷ rs) = elim (Bool-cases (is_claimable id r)) [
  | inl can ↦ ground (arith, claim_referral_le id rs)
  | inr not_it ↦ ground (arith, claim_referral_le id rs)
]

-- One row for each id, and a discount code of the fixed amount for each referral that was paid.
pub record IsPaidOnce (db : ReferralDb) : Type 0 where
  pub unique : (id : ℕ) → with_id id db.referrals ≤ 1
  pub matched : length db.discount_codes ≡ paid_out db.referrals
  pub amounts :
      sum_by (λ (c : DiscountCode). c.amount_kobo) db.discount_codes
      ≡ referral_reward_kobo * paid_out db.referrals

award_tx-IsPaidOnce :
    (r : Referral) (code reference : ℕ) (db : ReferralDb)
    → IsPaidOnce db
    → IsPaidOnce (award_tx r code reference db).1
unfolding award_tx
award_tx-IsPaidOnce r code reference db h =
    let claim = claim_referral r.id db.referrals in
    let paid = claim_referral-paid_out r.id db.referrals in
    let most = claim_referral_le r.id db.referrals in
    let once = h.unique r.id in
    let matched = h.matched in
    let amounts = h.amounts in
    let claimed_db = record db { referrals = claim.1 } in
    elim (Bool-cases (claim.0 == 0)) [
      | inl nobody ↦
          let is : (award_tx r code reference db).1 ≡ claimed_db = ground arith in
          rw is (record {
            unique = λ k. omega (arith, h.unique k, claim_referral-with_id k r.id db.referrals);
            matched = ground arith;
            amounts = ground arith;
          })
      | inr somebody ↦
          let is : (award_tx r code reference db).1
              ≡ pay_reward r.referrer_id code reference claimed_db =
            ground arith in
          let one : claim.0 ≡ 1 = ground arith in
          rw is (record {
            unique = λ k. omega (arith, h.unique k, claim_referral-with_id k r.id db.referrals);
            matched = ground arith;
            amounts = ground arith;
          })
    ]

-- A payment by a referred lead; or, when others came between its look-up and its transaction, the
-- transaction alone, with the row as it was read.
pub data Move : Type 0 where
  award : ℕ → List ℕ → ℕ → List ℕ → ℕ → Move
  finish_award : Referral → ℕ → ℕ → Move

unfoldable pub apply : Move → ReferralDb → ReferralDb
apply (award referred references last_reference codes last_code) db =
    (maybe_award_referral referred references last_reference codes last_code db).1
apply (finish_award r code reference) db = (award_tx r code reference db).1

unfoldable pub run : List Move → ReferralDb → ReferralDb
run [] db = db
run (m ∷ moves) db = run moves (apply m db)

apply-IsPaidOnce : (m : Move) (db : ReferralDb) → IsPaidOnce db → IsPaidOnce (apply m db)
unfolding apply maybe_award_referral award_found
apply-IsPaidOnce (finish_award r code reference) db h = award_tx-IsPaidOnce r code reference db h
apply-IsPaidOnce (award referred references last_reference codes last_code) db h =
    awarded (find? (λ (r : Referral). r.referred_id == referred && is_joined r.status) db.referrals)
      (unique_of (code_in_use db) codes last_code)
      (unique_of (reference_in_use db) references last_reference) db h
  where
    awarded :
        (found : Option Referral) (code reference : ℕ) (db : ReferralDb)
        → IsPaidOnce db
        → IsPaidOnce (award_found found code reference db).1
    awarded none code reference db h = h
    awarded (some r) code reference db h = award_tx-IsPaidOnce r code reference db h

-- However many payments of referred leads run, and in whatever order, if each paid referral had its
-- code before, each has exactly one after: there are as many codes as paid referrals, and together
-- they are worth the fixed reward for each.
pub run-IsPaidOnce :
    (moves : List Move) (db : ReferralDb) → IsPaidOnce db → IsPaidOnce (run moves db)
unfolding run
run-IsPaidOnce [] db h = h
run-IsPaidOnce (m ∷ moves) db h = run-IsPaidOnce moves (apply m db) (apply-IsPaidOnce m db h)
