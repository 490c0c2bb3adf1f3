-- ===== src/Kyc/Refresh.antt =====
-- Reading the verdict again: `refreshIdentity` of src/services/kyc.service.ts, which runs when the
-- provider reports `identity.updated`, and `submitPayoutDestination`, which ends with it.
use duevy_be.Base.{
  ℕ, ◌+◌, Bool, true, false, ◌&&◌, ◌==◌, not, find?, length, mem?, if◌then◌else◌, Option, none,
  some, List, [], ◌∷◌, holds,
}
use duevy_be.Base.Results.{app_error, Code}
use duevy_be.Base.Stateful.{pure, raise, gets, lift, ◌>>=◌, ◌>>◌, modify}
use duevy_be.Store.{KycStatus}
use duevy_be.Kyc.{
  Notice, KycUser, KycDb, Kyc, or_rethrow, load_user, update_user, notify, KycState, get_kyc_state,
}
use duevy_be.Kyc.Submit.{
  IdentityResult, KycCalls, is_rejected, is_kyc_pending, status_from, reason_of, lock_after,
}
use duevy_be.Checkout.Create.{is_verified}

pub data Refreshed : Type 0 where
  updated unchanged unknown : Refreshed

abbrev status_tag : KycStatus → ℕ
status_tag KycStatus.unverified = 0
status_tag KycStatus.pending = 1
status_tag KycStatus.verified = 2
status_tag KycStatus.rejected = 3

-- `===` on statuses.
abbrev pub same_status : KycStatus → KycStatus → Bool
same_status a b = status_tag a == status_tag b

abbrev pub same_flag : Bool → Bool → Bool
same_flag true b = b
same_flag false b = not b

-- `wanted.every((r) => due.includes(r))`
abbrev pub all_among : List ℕ → List ℕ → Bool
all_among [] due = true
all_among (r ∷ wanted) due = mem? r due && all_among wanted due

unfoldable pub same_requirements : List ℕ → List ℕ → Bool
same_requirements wanted due = length wanted == length due && all_among wanted due

-- `findUnique({ where: { bachsAccountId } })`
unfoldable pub find_account : ℕ → List KycUser → Option KycUser
find_account account = find? (λ (u : KycUser). holds account u.account.bachs_account_id)

unfoldable pub is_unchanged : IdentityResult → KycUser → Bool
is_unchanged r u =
    same_status (status_from r) u.account.kyc_status
    && (same_flag r.payouts_active u.account.bachs_payouts_active
        && same_requirements r.requirements_due u.kyc_requirements_due)

abbrev pub became_rejected : IdentityResult → KycUser → Bool
became_rejected r u = is_rejected (status_from r) && not (is_rejected u.account.kyc_status)

abbrev pub attempts_after : IdentityResult → KycUser → ℕ
attempts_after r u = if became_rejected r u then u.kyc_attempts + 1 else u.kyc_attempts

abbrev pub refreshed_row : ℕ → IdentityResult → KycUser → KycUser
refreshed_row now r u = record u {
  account = record u.account {
    kyc_status = status_from r;
    bachs_payouts_active = r.payouts_active;
  };
  kyc_requirements_due = r.requirements_due;
  kyc_resolved_at = if is_kyc_pending (status_from r) then u.kyc_resolved_at else some now;
  kyc_rejection_reason = reason_of r;
  kyc_attempts = if is_verified (status_from r) then 0 else attempts_after r u;
  kyc_retry_locked_until =
      if became_rejected r u
      then lock_after now (attempts_after r u) u.kyc_retry_locked_until
      else u.kyc_retry_locked_until;
}

abbrev is_empty : List ℕ → Bool
is_empty [] = true
is_empty (_ ∷ _) = false

-- The notice that goes with a change, if any.
unfoldable pub refresh_notice : IdentityResult → KycUser → Option Notice
refresh_notice r u =
    if not (same_status (status_from r) u.account.kyc_status)
      && not (is_kyc_pending (status_from r))
    then some
        (if is_verified (status_from r) then Notice.identity_verified else Notice.identity_failed)
    else (if not (same_requirements r.requirements_due u.kyc_requirements_due)
          && not (is_empty r.requirements_due)
        then some Notice.more_details_needed
        else none)

unfoldable pub send_notice : ℕ → Option Notice → KycDb → KycDb
send_notice id none db = db
send_notice id (some n) db = notify id n db

module _ (calls : KycCalls) (now : ℕ) where
  unfoldable pub apply_verdict : KycUser → IdentityResult → Kyc Refreshed
  apply_verdict user r =
      if is_unchanged r user
      then pure unchanged
      else modify (update_user user.account.id (refreshed_row now r))
        >> modify (send_notice user.account.id (refresh_notice r user))
        >> pure updated

  -- A user without a person is not known to the provider.
  unfoldable pub refresh_user : ℕ → Option KycUser → Kyc Refreshed
  unfolding apply_verdict
  refresh_user account none = pure unknown
  refresh_user account (some user) = elim user.bachs_person_id [
    | none ↦ pure unknown
    | some person ↦
        lift (or_rethrow (calls.get_identity_status account person)) >>= apply_verdict user
  ]

  unfoldable pub refresh_identity : ℕ → Kyc Refreshed
  unfolding refresh_user
  refresh_identity account = do
    found ← gets (λ (db : KycDb). find_account account db.users)
    refresh_user account found

  abbrev pub destination_row : ℕ → ℕ → ℕ → ℕ → KycUser → KycUser
  destination_row bank number bank_name account_name u = record u {
    payout_destination_bank_code = some bank;
    payout_destination_bank_name = some bank_name;
    payout_destination_account_masked = some (calls.mask_account_number number);
    payout_destination_account_name = some account_name;
    payout_destination_submitted_at = some now;
  }

  -- The name at the bank is asked for first, and is what the provider is told.
  unfoldable pub send_destination : ℕ → ℕ → ℕ → KycUser → Kyc KycState
  unfolding refresh_identity get_kyc_state
  send_destination id bank number user = elim user.account.bachs_account_id [
    | none ↦ raise (app_error 409 Code.kyc_not_started)
    | some account ↦ elim user.bachs_person_id [
      | none ↦ raise (app_error 409 Code.kyc_not_started)
      | some person ↦ lift (or_rethrow (calls.resolve_bank bank number)) >>= λ names.
          lift (or_rethrow (calls.submit_destination account bank number names.1))
          >> modify (update_user id (destination_row bank number names.0 names.1))
          >> (refresh_identity account >>= λ done. get_kyc_state id)
    ]
  ]

  unfoldable pub submit_payout_destination : ℕ → ℕ → ℕ → Kyc KycState
  unfolding send_destination
  submit_payout_destination id bank number = load_user id >>= send_destination id bank number
