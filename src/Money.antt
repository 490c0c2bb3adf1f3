-- ===== src/Money.antt =====
-- src/lib/money.ts: fees, charges, withdrawals. Every amount is a whole number of kobo, so a native
-- number; `assertKobo` keeps its upper bound (a negative or fractional amount has no counterpart).
pub mod Fees
pub mod Allocate
pub mod Decimal
use duevy_be.Base.{
  ℕ, ◌+◌, ◌-◌, ◌*◌, ◌/◌, ◌≤◌, ◌≡◌, Bool, true, false, ltb, leb, if◌then◌else◌, ◌==◌,
}
use duevy_be.Base.Results.{Result, ok, err, range_error, ◌>>=◌, ◌>>◌, guard}

-- `Number.MAX_SAFE_INTEGER`
abbrev pub max_safe_integer : ℕ
max_safe_integer = 9007199254740991

unfoldable pub assert_kobo : ℕ → Result (Unit {0})
assert_kobo value = guard (leb value max_safe_integer) range_error

abbrev pub checkout_fee_percent : ℕ
checkout_fee_percent = 2

abbrev pub checkout_fee_flat_kobo : ℕ
checkout_fee_flat_kobo = 2000

abbrev pub withdrawal_fee_low_kobo : ℕ
withdrawal_fee_low_kobo = 10000

abbrev pub withdrawal_fee_high_kobo : ℕ
withdrawal_fee_high_kobo = 20000

abbrev pub withdrawal_fee_threshold_kobo : ℕ
withdrawal_fee_threshold_kobo = 5000000

abbrev pub min_payout_kobo : ℕ
min_payout_kobo = 100000

-- round(a × num / den), half-up.
unfoldable pub mul_div_round_half_up : ℕ → ℕ → ℕ → ℕ
mul_div_round_half_up a num den = (a * num * 2 + den) / (den * 2)

unfoldable pub checkout_fee : ℕ → Result ℕ
unfolding assert_kobo mul_div_round_half_up
checkout_fee face_kobo = do
  assert_kobo face_kobo
  if face_kobo == 0
      then ok 0
      else ok (mul_div_round_half_up face_kobo checkout_fee_percent 100 + checkout_fee_flat_kobo)

pub record Charge : Type 0 where
  pub face : ℕ
  pub fee : ℕ
  pub total : ℕ

unfoldable pub compute_charge : ℕ → Result Charge
unfolding checkout_fee
compute_charge face_kobo = do
  fee ← checkout_fee face_kobo
  ok (record { face = face_kobo; fee = fee; total = face_kobo + fee })

unfoldable pub withdrawal_fee : ℕ → Result ℕ
unfolding assert_kobo
withdrawal_fee gross_kobo = do
  assert_kobo gross_kobo
  ok (
      if ltb gross_kobo withdrawal_fee_threshold_kobo
      then withdrawal_fee_low_kobo
      else withdrawal_fee_high_kobo)

pub record WithdrawalBreakdown : Type 0 where
  pub gross : ℕ
  pub fee : ℕ
  pub fee_before_discount : ℕ
  pub discount : ℕ
  pub net : ℕ

-- The discount is at most the fee, so the subtraction never stops at 0.
unfoldable pub discounted_fee : ℕ → ℕ → Result ℕ
unfolding mul_div_round_half_up
discounted_fee fee_kobo discount_percent = do
  guard (leb discount_percent 100) range_error
  ok (fee_kobo - mul_div_round_half_up fee_kobo discount_percent 100)

-- `grossKobo - fee` is negative in the source below the fee; the callers refuse amounts below
-- `min_payout_kobo` before the net is used, and the theorems carry that bound.
unfoldable pub compute_withdrawal : ℕ → ℕ → Result WithdrawalBreakdown
unfolding withdrawal_fee discounted_fee
compute_withdrawal gross_kobo discount_percent = do
  fee_before_discount ← withdrawal_fee gross_kobo
  fee ← discounted_fee fee_before_discount discount_percent
  ok (record {
    gross = gross_kobo;
    fee = fee;
    fee_before_discount = fee_before_discount;
    discount = fee_before_discount - fee;
    net = gross_kobo - fee;
  })
