-- ===== src/Referral.antt =====
-- src/services/referral.service.ts: the reward for a referral, paid once, as a discount code. The state
-- holds the three tables that it reads and writes, each with the newest first.
pub mod Once
use duevy_be.Base.{
  ℕ, ◌+◌, ◌*◌, ◌≤◌, ◌≡◌, refl, Bool, true, false, ◌&&◌, ◌==◌, not, is_some, find?, take, sum_by,
  length, if◌then◌else◌, Option, none, some, List, [], ◌∷◌, ◌++◌, Bool-cases, Option-cases, inl,
  inr, arith,
}
use duevy_be.Base.Results.{Result, ok, err}
use duevy_be.Base.Stateful.{Stateful, pure, gets, transaction, ◌>>=◌, ◌>>◌, modify}

-- 500 naira.
abbrev pub referral_reward_kobo : ℕ
referral_reward_kobo = 50000

pub data ReferralStatus : Type 0 where
  pending joined paid : ReferralStatus

pub record Referral : Type 0 where
  pub id : ℕ
  pub referrer_id : ℕ
  pub referred_id : ℕ
  pub status : ReferralStatus
  pub reward : ℕ

pub record DiscountCode : Type 0 where
  pub code : ℕ
  pub user_id : ℕ
  pub amount_kobo : ℕ

pub record RewardTransaction : Type 0 where
  pub user_id : ℕ
  pub reference : ℕ
  pub amount : ℕ

pub record ReferralDb : Type 0 where
  pub referrals : List Referral
  pub discount_codes : List DiscountCode
  pub transactions : List RewardTransaction

abbrev pub Referrals : Type 0 → Type 0
Referrals A = Stateful ReferralDb A

abbrev pub is_joined : ReferralStatus → Bool
is_joined ReferralStatus.joined = true
is_joined _ = false

abbrev pub is_paid_out : ReferralStatus → Bool
is_paid_out ReferralStatus.paid = true
is_paid_out _ = false

-- The first of six candidates that nobody has; else one made from the clock.
unfoldable pub unique_of : (ℕ → Bool) → List ℕ → ℕ → ℕ
unique_of in_use candidates last = elim (find? (λ c. not (in_use c)) (take 6 candidates)) [
  | none ↦ last
  | some c ↦ c
]

abbrev pub is_claimable : ℕ → Referral → Bool
is_claimable id r = r.id == id && is_joined r.status

abbrev pub claimed : Referral → Referral
claimed r = record r { status = ReferralStatus.paid; reward = referral_reward_kobo }

-- `updateMany({ where: { id, status: 'joined' }, data })`, and how many rows it changed.
unfoldable pub claim_referral : ℕ → List Referral → ℕ × List Referral
claim_referral id [] = (0, [])
claim_referral id (r ∷ rs) =
    let rest = claim_referral id rs in
    if is_claimable id r then (1 + rest.0, claimed r ∷ rest.1) else (rest.0, r ∷ rest.1)

abbrev pub pay_reward : ℕ → ℕ → ℕ → ReferralDb → ReferralDb
pay_reward user code reference db = record db {
  discount_codes =
      record { code = code; user_id = user; amount_kobo = referral_reward_kobo }
      ∷ db.discount_codes;
  transactions =
      record { user_id = user; reference = reference; amount = referral_reward_kobo }
      ∷ db.transactions;
}

-- Only the caller whose claim changes a row pays.
unfoldable pub award_tx : Referral → ℕ → ℕ → Referrals Bool
award_tx referral code reference = transaction (
    gets (λ (db : ReferralDb). claim_referral referral.id db.referrals) >>= λ claim.
    modify (λ (db : ReferralDb). record db { referrals = claim.1 })
    >> (if claim.0 == 0
        then pure false
        else modify (pay_reward referral.referrer_id code reference) >> pure true))

abbrev pub code_in_use : ReferralDb → ℕ → Bool
code_in_use db code = is_some (find? (λ (c : DiscountCode). c.code == code) db.discount_codes)

abbrev pub reference_in_use : ReferralDb → ℕ → Bool
reference_in_use db k =
    is_some (find? (λ (t : RewardTransaction). t.reference == k) db.transactions)

unfoldable pub award_found : Option Referral → ℕ → ℕ → Referrals Bool
unfolding award_tx
award_found none code reference = pure false
award_found (some referral) code reference = award_tx referral code reference

-- The candidates for the reference and for the code are drawn outside.
unfoldable pub maybe_award_referral : ℕ → List ℕ → ℕ → List ℕ → ℕ → Referrals Bool
unfolding award_found
maybe_award_referral referred references last_reference codes last_code = do
  found ← gets (λ (db : ReferralDb).
      find? (λ (r : Referral). r.referred_id == referred && is_joined r.status) db.referrals)
  reference ← gets (λ db. unique_of (reference_in_use db) references last_reference)
  code ← gets (λ db. unique_of (code_in_use db) codes last_code)
  award_found found code reference
