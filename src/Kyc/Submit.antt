-- ===== src/Kyc/Submit.antt =====
-- Sending an identity to the provider: `submitKyc` and `recordFailedAttempt` of
-- src/services/kyc.service.ts. The NIN, the BVN and the date of birth only pass through.
use duevy_be.Base.{
  ℕ, ◌+◌, Bool, true, false, ◌&&◌, ◌==◌, leb, ltb, not, if◌then◌else◌, Option, none, some, get_or,
  take, List, [], ◌∷◌,
}
use duevy_be.Base.Results.{app_error, Code, provider_error, plain_error}
use duevy_be.Base.Stateful.{pure, raise, lift, ◌>>=◌, ◌>>◌, raise_if, modify}
use duevy_be.Store.{KycStatus, StudentIdStatus}
use duevy_be.Signatory.{is_ahead}
use duevy_be.Withdrawal.Payouts.{taken}
use duevy_be.Checkout.Create.{is_verified}
use duevy_be.Kyc.{
  Gender, Reason, said, verification_failed, KycUser, KycDb, Kyc, Answer, answered, provider_failed,
  failed, or_rethrow, load_user, update_user, is_rep_or_applicant, split_name, KycState, to_state,
}

abbrev pub max_kyc_attempts : ℕ
max_kyc_attempts = 3

-- A day, in milliseconds.
abbrev pub kyc_retry_lock_ms : ℕ
kyc_retry_lock_ms = 86400000

pub record Document : Type 0 where
  pub content : ℕ
  pub mime_type : ℕ

pub record KycSubmission : Type 0 where
  pub nin : ℕ
  pub bvn : Option ℕ
  pub dob : ℕ
  pub gender : Gender
  pub first_name : Option ℕ
  pub last_name : Option ℕ
  pub phone : Option ℕ
  pub student_id : Document
  pub government_id : Option Document

pub data IdentityStatus : Type 0 where
  pending verified rejected : IdentityStatus

pub record IdentityResult : Type 0 where
  pub account_id : ℕ
  pub person_id : ℕ
  pub status : IdentityStatus
  pub payouts_active : Bool
  pub failure_reason : Option (List ℕ)
  pub requirements_due : List ℕ

pub data IdentityNumber : Type 0 where
  nin bvn : ℕ → IdentityNumber

-- What `verifyIdentity` is called with.
pub record IdentityInput : Type 0 where
  pub user : ℕ
  pub email : ℕ
  pub first_name : ℕ
  pub last_name : ℕ
  pub display_name : List ℕ
  pub phone : Option ℕ
  pub id_numbers : List IdentityNumber
  pub dob : ℕ
  pub existing_account_id : Option ℕ
  pub existing_person_id : Option ℕ

pub record StoredFile : Type 0 where
  pub file_id : ℕ
  pub file_path : ℕ

-- The calls of the provider and of the file store. The word that stands for a name without words is
-- a number like the others.
pub record KycCalls : Type 0 where
  pub unknown : ℕ
  pub upload : ℕ → Document → Answer StoredFile
  pub verify_identity : IdentityInput → Answer IdentityResult
  pub upload_document : ℕ → ℕ → Document → Answer (Unit {0})
  pub get_identity_status : ℕ → ℕ → Answer IdentityResult
  pub resolve_bank : ℕ → ℕ → Answer (ℕ × ℕ)
  pub submit_destination : ℕ → ℕ → ℕ → ℕ → Answer (Unit {0})
  pub mask_account_number : ℕ → ℕ

abbrev pub is_kyc_pending : KycStatus → Bool
is_kyc_pending KycStatus.pending = true
is_kyc_pending _ = false

abbrev pub is_rejected : KycStatus → Bool
is_rejected KycStatus.rejected = true
is_rejected _ = false

unfoldable pub status_from : IdentityResult → KycStatus
status_from r = elim r.status [
  | verified ↦ KycStatus.verified
  | rejected ↦ KycStatus.rejected
  | pending ↦ KycStatus.pending
]

-- A request to delete a file; when it is refused the file stays, and nothing else happens.
unfoldable pub discard_file : Option ℕ → KycDb → KycDb
discard_file none db = db
discard_file (some id) db = record db { discarded = id ∷ db.discarded }

-- `attempts >= MAX_KYC_ATTEMPTS ? new Date(Date.now() + KYC_RETRY_LOCK_MS) : other`
abbrev pub lock_after : ℕ → ℕ → Option ℕ → Option ℕ
lock_after now attempts other =
    if leb max_kyc_attempts attempts then some (now + kyc_retry_lock_ms) else other

abbrev pub failed_row : ℕ → ℕ → List ℕ → KycUser → KycUser
failed_row now attempts message u = record u {
  account = record u.account { kyc_status = KycStatus.rejected };
  kyc_attempts = attempts;
  kyc_rejection_reason = some (said (take 300 message));
  kyc_retry_locked_until = lock_after now attempts none;
}

unfoldable pub record_failed_attempt : ℕ → KycUser → List ℕ → Kyc (Unit {0})
record_failed_attempt now user message =
    modify (update_user user.account.id (failed_row now (user.kyc_attempts + 1) message))

-- `failureReason ?? 'Verification failed'`, where the verdict is a rejection.
abbrev pub reason_of : IdentityResult → Option Reason
reason_of r = if is_rejected (status_from r) then some (why r.failure_reason) else none
  where
    why : Option (List ℕ) → Reason
    why none = verification_failed
    why (some text) = said text

-- A `ProviderError` of the 400s: the details were refused.
abbrev pub is_refusal : Option ℕ → Bool
is_refusal none = false
is_refusal (some status) = leb 400 status && ltb status 500

abbrev pub or_else : Option ℕ → Option ℕ → Option ℕ
or_else none other = other
or_else (some a) other = some a

unfoldable pub identity_input : ℕ → KycUser → KycSubmission → IdentityInput
identity_input unknown user input = record {
  user = user.account.id;
  email = user.email;
  first_name = get_or input.first_name (split_name unknown user.name).0;
  last_name = get_or input.last_name (split_name unknown user.name).1;
  display_name = user.name;
  phone = or_else input.phone user.phone;
  id_numbers = elim input.bvn [
    | none ↦ IdentityNumber.nin input.nin ∷ []
    | some number ↦ IdentityNumber.nin input.nin ∷ IdentityNumber.bvn number ∷ []
  ];
  dob = input.dob;
  existing_account_id = user.account.bachs_account_id;
  existing_person_id = user.bachs_person_id;
}

-- The student ID that was just stored waits for a review.
abbrev pub with_student_id : ℕ → StoredFile → Document → KycUser → KycUser
with_student_id now stored doc u = record u {
  account = record u.account { student_id_status = some StudentIdStatus.pending };
  student_id_file_id = some stored.file_id;
  student_id_file_path = some stored.file_path;
  student_id_mime_type = some doc.mime_type;
  student_id_uploaded_at = some now;
  student_id_reviewed_at = none;
  student_id_reviewed_by_id = none;
  student_id_review_note = none;
}

abbrev pub with_identity : ℕ → KycSubmission → IdentityResult → Option ℕ → KycUser → KycUser
with_identity now input r government u = record u {
  account = record u.account {
    bachs_account_id = some r.account_id;
    kyc_status = status_from r;
    bachs_payouts_active = r.payouts_active;
  };
  bachs_person_id = some r.person_id;
  kyc_requirements_due = r.requirements_due;
  kyc_submitted_at = some now;
  gender = some input.gender;
  phone = or_else input.phone u.phone;
  kyc_resolved_at = if is_kyc_pending (status_from r) then none else some now;
  kyc_rejection_reason = reason_of r;
  government_id_submitted_at = government;
}

abbrev pub submitted_row :
    ℕ → KycSubmission → StoredFile → IdentityResult → Option ℕ → KycUser → KycUser
submitted_row now input stored r government u =
    with_student_id now stored input.student_id (with_identity now input r government u)

-- A file that another one takes the place of.
abbrev pub superseded : Option ℕ → ℕ → Option ℕ
superseded none new = none
superseded (some old) new = if old == new then none else some old

module _ (calls : KycCalls) (now : ℕ) where
  -- The government ID is sent on when there is one; a failure leaves the time as it was.
  unfoldable pub government_id_time : IdentityResult → Option Document → Option ℕ → Option ℕ
  government_id_time r none before = before
  government_id_time r (some doc) before =
      elim (calls.upload_document r.account_id r.person_id doc) [
        | answered _ ↦ some now
        | provider_failed status message ↦ before
        | failed ↦ before
      ]

  unfoldable pub record_identity :
      KycUser → KycSubmission → StoredFile → IdentityResult → Kyc KycState
  record_identity user input stored r =
      let government = government_id_time r input.government_id user.government_id_submitted_at in
      modify (update_user user.account.id (submitted_row now input stored r government))
      >> modify (discard_file (superseded user.student_id_file_id stored.file_id))
      >> pure (to_state (submitted_row now input stored r government user))

  -- The guards, in their order.
  unfoldable pub may_submit : KycUser → Kyc (Unit {0})
  may_submit user =
      raise_if (not (is_rep_or_applicant user)) (app_error 403 Code.rep_not_approved)
      >> raise_if (is_verified user.account.kyc_status) (app_error 409 Code.already_verified)
      >> raise_if (is_kyc_pending user.account.kyc_status && taken user.bachs_person_id)
          (app_error 409 Code.kyc_pending)
      >> raise_if (is_ahead user.kyc_retry_locked_until now) (app_error 429 Code.kyc_retry_locked)

  -- What follows the call of the provider.
  unfoldable pub after_verdict : KycUser → KycSubmission → StoredFile → Kyc KycState
  unfolding record_identity record_failed_attempt
  after_verdict user input stored =
      elim (calls.verify_identity (identity_input calls.unknown user input)) [
        | answered r ↦ record_identity user input stored r
        | provider_failed status message ↦
            modify (discard_file (some stored.file_id))
            >> (if is_refusal status
                then record_failed_attempt now user message
                  >> raise (app_error 422 Code.kyc_rejected)
                else raise (provider_error status))
        | failed ↦ modify (discard_file (some stored.file_id)) >> raise plain_error
      ]

  unfoldable pub submit_kyc : ℕ → KycSubmission → Kyc KycState
  unfolding may_submit after_verdict
  submit_kyc id input = do
    user ← load_user id
    may_submit user
    stored ← lift (or_rethrow (calls.upload user.account.id input.student_id))
    after_verdict user input stored
