-- ===== src/Money/Fees.antt =====
-- The fees and breakdowns of src/lib/money.ts: what they add up to and their bounds.
use duevy_be.Base.{ℕ, ◌+◌, ◌-◌, ◌*◌, ◌≤◌, ◌<◌, ◌≡◌, ◌≢◌, ◌⊎◌, arith}
use duevy_be.Base.Results.{ok, err, range_error}
use duevy_be.Money.{
  Charge, WithdrawalBreakdown, max_safe_integer, mul_div_round_half_up, checkout_fee,
  compute_charge, withdrawal_fee, discounted_fee, compute_withdrawal, min_payout_kobo,
}

-- Half-up rounding to a percentage is within half a unit of the exact share.
pub mul_div_round_half_up-nearest :
    (a num : ℕ)
    → let r = mul_div_round_half_up a num 100 in
      (200 * r ≤ 2 * (a * num) + 100) × (2 * (a * num) < 200 * r + 100)
unfolding mul_div_round_half_up
mul_div_round_half_up-nearest a num = omega arith

-- A charge for a non-empty basket that `assertKobo` accepts is exactly face + fee, the fee being
-- ₦20 on top of the multiple of a kobo nearest to 2 % of the face (ties up).
pub compute_charge_exact :
    (face : ℕ) {c : Charge}
    → compute_charge face ≡ ok c
    → face ≢ 0
    → (c.face ≡ face)
      × (c.total ≡ c.face + c.fee)
      × (2000 ≤ c.fee)
      × (100 * (c.fee - 2000) ≤ 2 * face + 50)
      × (2 * face < 100 * (c.fee - 2000) + 50)
unfolding compute_charge
compute_charge_exact face h ne = ground arith

pub checkout_fee_mono :
    (a b : ℕ) {f g : ℕ} → a ≤ b → checkout_fee a ≡ ok f → checkout_fee b ≡ ok g → f ≤ g
unfolding checkout_fee
checkout_fee_mono a b le p q = ground arith

-- Splitting a basket never saves the payer money: two separate checkouts cost at least one flat
-- fee less a kobo more than one checkout for both.
pub checkout_fee_split :
    (a b : ℕ) {f g h : ℕ}
    → a ≢ 0
    → b ≢ 0
    → checkout_fee a ≡ ok f
    → checkout_fee b ≡ ok g
    → checkout_fee (a + b) ≡ ok h
    → h + 1999 ≤ f + g
unfolding checkout_fee
checkout_fee_split a b na nb p q r = ground arith

pub discounted_fee-le : (fee pct : ℕ) {f : ℕ} → discounted_fee fee pct ≡ ok f → f ≤ fee
unfolding discounted_fee
discounted_fee-le fee pct h = ground arith

pub withdrawal_fee_range :
    (gross : ℕ) {f : ℕ} → withdrawal_fee gross ≡ ok f → (10000 ≤ f) × (f ≤ 20000)
unfolding withdrawal_fee
withdrawal_fee_range gross h = ground arith

-- For an amount that a withdrawal accepts, every breakdown adds up: gross = net + fee, fee =
-- undiscounted fee - discount, the fee is at most ₦200, and at least nine tenths of the gross
-- is sent.
pub compute_withdrawal_adds_up :
    (gross pct : ℕ) {b : WithdrawalBreakdown}
    → min_payout_kobo ≤ gross
    → compute_withdrawal gross pct ≡ ok b
    → (b.gross ≡ gross)
      × (b.gross ≡ b.net + b.fee)
      × (b.fee_before_discount ≡ b.fee + b.discount)
      × (b.fee ≤ 20000)
      × (9 * gross ≤ 10 * b.net)
unfolding compute_withdrawal
compute_withdrawal_adds_up gross pct h e = ground arith

-- A full discount leaves no fee, and no discount leaves it whole.
pub compute_withdrawal_discount :
    (gross : ℕ) {full none : WithdrawalBreakdown}
    → compute_withdrawal gross 100 ≡ ok full
    → compute_withdrawal gross 0 ≡ ok none
    → (full.fee ≡ 0) × (none.discount ≡ 0) × (none.fee ≡ full.discount)
unfolding compute_withdrawal
compute_withdrawal_discount gross p q = ground arith

-- Both refusals: an amount past the safe integers, and a percentage past 100.
pub compute_withdrawal_refused :
    (gross pct : ℕ)
    → (compute_withdrawal gross pct ≡ err range_error → (max_safe_integer < gross) ⊎ (100 < pct))
      × ((max_safe_integer < gross) ⊎ (100 < pct) → compute_withdrawal gross pct ≡ err range_error)
unfolding compute_withdrawal
compute_withdrawal_refused gross pct = ground arith
