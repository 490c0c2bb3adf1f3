-- ===== src/Kyc/Review.antt =====
-- The documents: `resubmitStudentId`, `submitGovernmentId`, `reviewStudentId`, `adminKycSummary` and
-- `listStudentIdsForReview` of src/services/kyc.service.ts.
use duevy_be.Base.{
  ℕ, zero, suc, Bool, true, false, ◌&&◌, ◌==◌, leb, not, keep, length, map, take, if◌then◌else◌,
  Option, none, some, List, [], ◌∷◌,
}
use duevy_be.Base.Results.{app_error, Code}
use duevy_be.Base.Table.{map_option}
use duevy_be.Base.Stateful.{pure, raise, gets, lift, or_raise, ◌>>=◌, ◌>>◌, raise_if, modify}
use duevy_be.Store.{KycStatus, StudentIdStatus, Decision}
use duevy_be.Withdrawal.Payouts.{taken}
use duevy_be.Kyc.{
  Notice, KycUser, KycDb, Kyc, Reason, or_rethrow, load_user, find_kyc_user, update_user, notify,
  is_rep_or_applicant, StudentIdView, KycState, to_state,
}
use duevy_be.Kyc.Submit.{Document, KycCalls, discard_file, with_student_id}

abbrev pub review_url_ttl_seconds : ℕ
review_url_ttl_seconds = 600

abbrev student_id_tag : StudentIdStatus → ℕ
student_id_tag StudentIdStatus.pending = 0
student_id_tag StudentIdStatus.approved = 1
student_id_tag StudentIdStatus.rejected = 2

abbrev pub has_student_id : StudentIdStatus → KycUser → Bool
has_student_id status u = elim u.account.student_id_status [
  | none ↦ false
  | some s ↦ student_id_tag s == student_id_tag status
]

abbrev pub government_row : ℕ → KycUser → KycUser
government_row now u = record u { government_id_submitted_at = some now }

abbrev pub decided : Decision → StudentIdStatus
decided Decision.approved = StudentIdStatus.approved
decided Decision.rejected = StudentIdStatus.rejected

abbrev pub is_refusing : Decision → Bool
is_refusing Decision.approved = false
is_refusing Decision.rejected = true

abbrev pub reviewed_row : ℕ → ℕ → Decision → Option ℕ → KycUser → KycUser
reviewed_row now admin decision note u = record u {
  account = record u.account { student_id_status = some (decided decision) };
  student_id_reviewed_at = some now;
  student_id_reviewed_by_id = some admin;
  student_id_review_note = note;
}

abbrev pub review_notice : Decision → Notice
review_notice Decision.approved = Notice.student_id_approved
review_notice Decision.rejected = Notice.student_id_not_accepted

module _ (calls : KycCalls) (now : ℕ) where
  unfoldable pub resubmit_for : Document → KycUser → Kyc KycState
  resubmit_for doc user = do
    raise_if (not (is_rep_or_applicant user)) (app_error 403 Code.rep_not_approved)
    raise_if (has_student_id StudentIdStatus.approved user) (app_error 409 Code.student_id_approved)
    raise_if (has_student_id StudentIdStatus.pending user) (app_error 409 Code.student_id_pending)
    stored ← lift (or_rethrow (calls.upload user.account.id doc))
    modify (update_user user.account.id (with_student_id now stored doc))
    modify (discard_file user.student_id_file_id)
    pure (to_state (with_student_id now stored doc user))

  unfoldable pub resubmit_student_id : ℕ → Document → Kyc KycState
  unfolding resubmit_for
  resubmit_student_id id doc = load_user id >>= resubmit_for doc

  unfoldable pub forward_government_id : Document → KycUser → Kyc KycState
  forward_government_id doc user = elim user.account.bachs_account_id [
    | none ↦ raise (app_error 409 Code.kyc_not_started)
    | some account ↦ elim user.bachs_person_id [
      | none ↦ raise (app_error 409 Code.kyc_not_started)
      | some person ↦
          lift (or_rethrow (calls.upload_document account person doc))
          >> modify (update_user user.account.id (government_row now))
          >> pure (to_state (government_row now user))
    ]
  ]

  unfoldable pub submit_government_id : ℕ → Document → Kyc KycState
  unfolding forward_government_id
  submit_government_id id doc = load_user id >>= forward_government_id doc

  -- The note is absent when it is missing or empty.
  unfoldable pub review_user : ℕ → Decision → Option ℕ → KycUser → Kyc KycState
  review_user admin decision note user = do
    raise_if (not (has_student_id StudentIdStatus.pending user)) (app_error 409 Code.not_pending)
    raise_if (is_refusing decision && not (taken note)) (app_error 400 Code.validation_error)
    modify (update_user user.account.id (reviewed_row now admin decision note))
    modify (notify user.account.id (review_notice decision))
    pure (to_state (reviewed_row now admin decision note user))

  unfoldable pub review_student_id : ℕ → ℕ → Decision → Option ℕ → Kyc KycState
  unfolding review_user
  review_student_id admin id decision note = do
    found ← gets (λ (db : KycDb). find_kyc_user id db.users)
    user ← or_raise found (app_error 404 Code.user_not_found)
    review_user admin decision note user

-- What an administrator sees of the student ID; a signed address is made from the file's path.
pub record AdminStudentId : Type 0 where
  pub view : StudentIdView
  pub mime_type : Option ℕ
  pub view_url : Option ℕ
  pub view_url_expires_in_seconds : ℕ

pub record AdminKyc : Type 0 where
  pub status : KycStatus
  pub rejection_reason : Option Reason
  pub requirements_due : List ℕ
  pub submitted_at : Option ℕ
  pub resolved_at : Option ℕ
  pub student_id : AdminStudentId

pub record ReviewRow : Type 0 where
  pub user_id : ℕ
  pub name : List ℕ
  pub email : ℕ
  pub kyc_status : KycStatus
  pub student_id : AdminStudentId

module _ (signed_url : ℕ → ℕ → ℕ) where
  unfoldable pub admin_student_id : KycUser → AdminStudentId
  admin_student_id u = record {
    view = record {
      status = u.account.student_id_status;
      uploaded_at = u.student_id_uploaded_at;
      reviewed_at = u.student_id_reviewed_at;
      review_note = u.student_id_review_note;
    };
    mime_type = u.student_id_mime_type;
    view_url = map_option (λ path. signed_url path review_url_ttl_seconds) u.student_id_file_path;
    view_url_expires_in_seconds = review_url_ttl_seconds;
  }

  unfoldable pub admin_kyc_summary : KycUser → AdminKyc
  unfolding admin_student_id
  admin_kyc_summary u = record {
    status = u.account.kyc_status;
    rejection_reason = u.kyc_rejection_reason;
    requirements_due = u.kyc_requirements_due;
    submitted_at = u.kyc_submitted_at;
    resolved_at = u.kyc_resolved_at;
    student_id = admin_student_id u;
  }

  abbrev pub review_row : KycUser → ReviewRow
  review_row u = record {
    user_id = u.account.id;
    name = u.name;
    email = u.email;
    kyc_status = u.account.kyc_status;
    student_id = admin_student_id u;
  }

-- `orderBy: { studentIdUploadedAt: 'asc' }`: a missing time comes last.
abbrev pub uploaded_before : Option ℕ → Option ℕ → Bool
uploaded_before none _ = false
uploaded_before (some a) none = true
uploaded_before (some a) (some b) = leb a b

unfoldable pub insert_upload : KycUser → List KycUser → List KycUser
insert_upload u [] = u ∷ []
insert_upload u (v ∷ vs) =
    let rest = insert_upload u vs in
    if uploaded_before u.student_id_uploaded_at v.student_id_uploaded_at
    then u ∷ v ∷ vs
    else v ∷ rest

unfoldable pub sort_uploads : List KycUser → List KycUser
sort_uploads [] = []
sort_uploads (u ∷ us) = insert_upload u (sort_uploads us)

abbrev pub drop : {A : Type 0} → ℕ → List A → List A
drop zero xs = xs
drop (suc n) [] = []
drop (suc n) (_ ∷ xs) = drop n xs

-- A page of the users whose student ID has that status, and how many there are.
unfoldable pub list_student_ids_for_review :
    (ℕ → ℕ → ℕ) → StudentIdStatus → ℕ → ℕ → List KycUser → ℕ × List ReviewRow
list_student_ids_for_review signed_url status skip most users =
    let found = keep (has_student_id status) users in
    (length found, map (review_row signed_url) (take most (drop skip (sort_uploads found))))
