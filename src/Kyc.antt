-- ===== src/Kyc.antt =====
-- src/services/kyc.service.ts: the verification of a rep's identity by the payment provider, and of
-- the student ID by an administrator. The columns of `users` that it reads and writes, the view that
-- a rep is shown, and how the calls of the provider and of the file store answer.
pub mod Submit
pub mod Refresh
pub mod Review
pub mod Closing
pub mod Retries
pub mod Verdicts
pub mod Reviewed
pub mod Runs
use duevy_be.Base.{
  ℕ, ◌≡◌, refl, ◌⊎◌, inl, inr, Bool, true, false, ◌&&◌, ◌||◌, ◌==◌, leb, ltb, find?, if◌then◌else◌,
  Option, none, some, get_or, List, [], ◌∷◌,
}
use duevy_be.Base.Results.{Failure, plain_error, provider_error, Result, ok, err}
use duevy_be.Base.Table.{find_by, update_by}
use duevy_be.Base.Stateful.{Stateful, gets, or_raise, ◌>>=◌, modify}
use duevy_be.Store.{User, KycStatus, StudentIdStatus, SpaceRep}
use duevy_be.Withdrawal.Payouts.{is_lead, taken}
use duevy_be.Checkout.Create.{can_collect, can_withdraw}

pub data ApplicationStatus : Type 0 where
  not_applied pending approved rejected : ApplicationStatus

pub data Gender : Type 0 where
  male female : Gender

-- Why an identity was rejected: a text, or `Verification failed` where the provider gave none.
pub data Reason : Type 0 where
  said : List ℕ → Reason
  verification_failed : Reason

-- The row of a user. `account` holds the columns that other services decide on.
pub record KycUser : Type 0 where
  pub account : User
  pub is_rep : Bool
  pub rep_application_status : ApplicationStatus
  -- The words of the name.
  pub name : List ℕ
  pub email : ℕ
  pub phone : Option ℕ
  pub gender : Option Gender
  pub bachs_person_id : Option ℕ
  pub kyc_requirements_due : List ℕ
  pub kyc_attempts : ℕ
  pub kyc_retry_locked_until : Option ℕ
  pub kyc_rejection_reason : Option Reason
  pub kyc_submitted_at : Option ℕ
  pub kyc_resolved_at : Option ℕ
  pub government_id_submitted_at : Option ℕ
  pub student_id_file_id : Option ℕ
  pub student_id_file_path : Option ℕ
  pub student_id_mime_type : Option ℕ
  pub student_id_uploaded_at : Option ℕ
  pub student_id_reviewed_at : Option ℕ
  pub student_id_reviewed_by_id : Option ℕ
  pub student_id_review_note : Option ℕ
  pub payout_destination_bank_code : Option ℕ
  pub payout_destination_bank_name : Option ℕ
  pub payout_destination_account_masked : Option ℕ
  pub payout_destination_account_name : Option ℕ
  pub payout_destination_submitted_at : Option ℕ

pub data Notice : Type 0 where
  identity_verified identity_failed more_details_needed : Notice
  student_id_approved student_id_not_accepted : Notice

-- The users, the files that were asked to be deleted, and the notices sent, the newest first.
pub record KycDb : Type 0 where
  pub users : List KycUser
  pub discarded : List ℕ
  pub notices : List (ℕ × Notice)

abbrev pub Kyc : Type 0 → Type 0
Kyc A = Stateful KycDb A

-- What a call of the provider or of the file store comes to: an answer, a `ProviderError` with its
-- HTTP status and message, or another error.
pub data Answer (A : Type 0) : Type 0 where
  answered : A → Answer A
  provider_failed : Option ℕ → List ℕ → Answer A
  failed : Answer A

pub Answer-cases :
    {A : Type 0} (a : Answer A)
    → ((x : A) × (a ≡ answered x))
      ⊎ ((status : Option ℕ) × (message : List ℕ) × (a ≡ provider_failed status message))
      ⊎ (a ≡ failed)
Answer-cases (answered x) = inl (x, refl)
Answer-cases (provider_failed status message) = inr (inl (status, message, refl))
Answer-cases failed = inr (inr refl)

-- An error that nobody catches.
abbrev pub or_rethrow : {A : Type 0} → Answer A → Result A
or_rethrow (answered a) = ok a
or_rethrow (provider_failed status message) = err (provider_error status)
or_rethrow failed = err plain_error

abbrev pub user_id : KycUser → ℕ
user_id u = u.account.id

unfoldable pub find_kyc_user : ℕ → List KycUser → Option KycUser
find_kyc_user = find_by user_id

-- `findUniqueOrThrow({ where: { id } })`
abbrev pub load_user : ℕ → Kyc KycUser
load_user id = do
  found ← gets (λ (db : KycDb). find_kyc_user id db.users)
  or_raise found plain_error

unfoldable pub update_user : ℕ → (KycUser → KycUser) → KycDb → KycDb
update_user id f db = record db { users = update_by user_id id f db.users }

abbrev pub notify : ℕ → Notice → KycDb → KycDb
notify id n db = record db { notices = (id, n) ∷ db.notices }

abbrev pub is_applicant : ApplicationStatus → Bool
is_applicant ApplicationStatus.pending = true
is_applicant ApplicationStatus.approved = true
is_applicant _ = false

unfoldable pub is_rep_or_applicant : KycUser → Bool
is_rep_or_applicant u = u.is_rep || is_applicant u.rep_application_status

-- The first and the last word of a name; `unknown` stands for a name without words.
unfoldable pub split_name : ℕ → List ℕ → ℕ × ℕ
split_name unknown [] = (unknown, unknown)
split_name unknown (word ∷ words) = (word, last word words)
  where
    last : ℕ → List ℕ → ℕ
    last word [] = word
    last word (next ∷ words) = last next words

pub record Destination : Type 0 where
  pub bank_code : ℕ
  pub bank_name : Option ℕ
  pub account_number : Option ℕ
  pub account_name : Option ℕ
  pub submitted_at : ℕ

pub record StudentIdView : Type 0 where
  pub status : Option StudentIdStatus
  pub uploaded_at : Option ℕ
  pub reviewed_at : Option ℕ
  pub review_note : Option ℕ

pub record KycState : Type 0 where
  pub kyc_status : KycStatus
  pub payouts_active : Bool
  pub collects : Bool
  pub withdraws : Bool
  pub provider_reference : Option ℕ
  pub requirements_due : List ℕ
  pub government_id_submitted_at : Option ℕ
  pub payout_destination : Option Destination
  pub student_id : StudentIdView
  pub rejection_reason : Option Reason
  pub retry_locked_until : Option ℕ
  pub submitted_at : Option ℕ
  pub resolved_at : Option ℕ

-- `u.payoutDestinationSubmittedAt && u.payoutDestinationBankCode ? … : null`
unfoldable pub destination_of : KycUser → Option Destination
destination_of u = sent u.payout_destination_submitted_at u.payout_destination_bank_code
  where
    sent : Option ℕ → Option ℕ → Option Destination
    sent (some at) (some bank) = some record {
      bank_code = bank;
      bank_name = u.payout_destination_bank_name;
      account_number = u.payout_destination_account_masked;
      account_name = u.payout_destination_account_name;
      submitted_at = at;
    }
    sent _ _ = none

unfoldable pub to_state : KycUser → KycState
to_state u = record {
  kyc_status = u.account.kyc_status;
  payouts_active = u.account.bachs_payouts_active;
  collects = can_collect u.account;
  withdraws = can_withdraw u.account;
  provider_reference = u.bachs_person_id;
  requirements_due = u.kyc_requirements_due;
  government_id_submitted_at = u.government_id_submitted_at;
  payout_destination = destination_of u;
  student_id = record {
    status = u.account.student_id_status;
    uploaded_at = u.student_id_uploaded_at;
    reviewed_at = u.student_id_reviewed_at;
    review_note = u.student_id_review_note;
  };
  rejection_reason = u.kyc_rejection_reason;
  retry_locked_until = u.kyc_retry_locked_until;
  submitted_at = u.kyc_submitted_at;
  resolved_at = u.kyc_resolved_at;
}

-- `EMPTY_STATE`
abbrev pub empty_state : KycState
empty_state = record {
  kyc_status = KycStatus.unverified;
  payouts_active = false;
  collects = false;
  withdraws = false;
  provider_reference = none;
  requirements_due = [];
  government_id_submitted_at = none;
  payout_destination = none;
  student_id = record { status = none; uploaded_at = none; reviewed_at = none; review_note = none };
  rejection_reason = none;
  retry_locked_until = none;
  submitted_at = none;
  resolved_at = none;
}

unfoldable pub get_kyc_state : ℕ → Kyc KycState
get_kyc_state id = do user ← load_user id; gets (λ db. to_state user)

-- The state of the lead of a space; a rep row belongs to a user.
unfoldable pub get_space_kyc_state : ℕ → List SpaceRep → List KycUser → KycState × Option ℕ
get_space_kyc_state space reps users =
    elim (find? (λ (r : SpaceRep). r.space_id == space && is_lead r.role) reps) [
      | none ↦ (empty_state, none)
      | some r ↦ elim (find_kyc_user r.user_id users) [
        | none ↦ (empty_state, none)
        | some u ↦ (to_state u, some r.user_id)
      ]
    ]
