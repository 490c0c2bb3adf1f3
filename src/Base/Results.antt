-- ===== src/Base/Results.antt =====
-- Errors as values: `AppError` with its HTTP status and code (src/lib/errors.ts), and the other
-- exceptions that the services throw. Messages for people are left out.
use Prim.Native.Nat.{ℕ}
use mathlib.Core.Path.{◌≡◌, refl}
use mathlib.Core.Logic.{◌⊎◌, inl, inr}
use mathlib.Core.Bool.{Bool, true, false}
use mathlib.Core.Option.{Option, none, some}
use duevy_be.Base.Tests.{if◌then◌else◌}

pub data Code : Type 0 where
  validation_error not_found forbidden : Code
  below_min_payout account_suspended due_required due_not_assigned payouts_frozen : Code
  withdrawal_pin_not_set withdrawal_pin_locked invalid_withdrawal_pin withdrawal_pin_hold : Code
  weak_pin signatories_incomplete kyc_not_verified lead_kyc_not_verified : Code
  withdrawal_in_progress insufficient_balance beneficiary_not_found : Code
  password_required invalid_password user_inactive : Code
  not_awaiting_approval approval_expired not_a_signatory already_signed : Code
  otp_recently_sent otp_expired otp_locked invalid_otp : Code
  mixed_spaces space_archived due_not_payable guests_not_allowed not_a_member : Code
  due_already_paid space_not_verified checkout_overlap checkout_opening price_mismatch : Code
  invalid_partner_code partner_code_expired partner_code_exhausted partner_already_applied : Code
  rep_not_approved already_verified kyc_pending kyc_retry_locked kyc_rejected : Code
  student_id_approved student_id_pending kyc_not_started not_pending user_not_found : Code
  poll_closed poll_structure_locked invalid_transition members_only already_voted : Code
  paid_voting_unavailable : Code
  account_unverifiable too_many_beneficiaries : Code
  kyc_required due_closed due_has_payments only_drafts_deletable already_assigned : Code
  reminder_cooldown : Code

pub data Failure : Type 0 where
  -- `AppError`: status and code.
  app_error : ℕ → Code → Failure
  range_error : Failure
  illegal_transition : Failure
  checkout_not_found : Failure
  -- A unique index refused a row (Prisma's P2002).
  unique_violation : Failure
  -- A `ProviderError` that may not be retried, and one that may.
  provider_refused provider_unavailable : Failure
  -- A `ProviderError` that is thrown on, with its HTTP status.
  provider_error : Option ℕ → Failure
  -- A plain `Error`.
  plain_error : Failure

pub data Result {ℓ} (A : Type ℓ) : Type ℓ where
  ok : A → Result A
  err : Failure → Result A

module _ {ℓ} {A : Type ℓ} where
  abbrev pub is_ok : Result A → Bool
  is_ok (err _) = false
  is_ok (ok _) = true

  -- `if (!x) throw e`, for a nullable x.
  abbrev pub or_throw : Option A → Failure → Result A
  or_throw (some a) e = ok a
  or_throw none e = err e

  pub Result-cases : (r : Result A) → ((a : A) × (r ≡ ok a)) ⊎ ((e : Failure) × (r ≡ err e))
  Result-cases (err e) = inr (e, refl)
  Result-cases (ok a) = inl (a, refl)

-- `if (b) throw e`
abbrev pub throw_if : Bool → Failure → Result (Unit {0})
throw_if false e = ok tt
throw_if true e = err e

-- `if (!b) throw e`
abbrev pub guard : Bool → Failure → Result (Unit {0})
guard b e = throw_if (if b then false else true) e

infixl 5 ◌>>◌ ◌>>=◌
-- The second step runs on the answer of the first, if there is one.
abbrev pub ◌>>=◌ {ℓ κ} : {B : Type κ} {A : Type ℓ} → Result A → (A → Result B) → Result B
err e >>= next = err e
ok answer >>= next = next answer

abbrev pub ◌>>◌ {κ} : {B : Type κ} → Result (Unit {0}) → Result B → Result B
first >> second = first >>= λ done. second
