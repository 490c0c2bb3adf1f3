-- ===== src/Tests/Identity.antt =====
-- A rep's identity (src/services/kyc.service.ts).
use duevy_be.Base.{map, Any, ℕ, ◌≡◌, refl, true, false, ◌&&◌, none, some, List, [], ◌∷◌, arith}
use duevy_be.Base.Results.{ok, err, app_error, Code}
use duevy_be.Base.Table.{find_by, update_by}
use duevy_be.Signatory.{is_ahead}
use duevy_be.Withdrawal.Payouts.{taken}
use duevy_be.Kyc.Review.{reviewed_row, review_student_id, review_user}
use duevy_be.Store.{KycStatus, Decision}
use duevy_be.Checkout.Create.{can_collect, is_verified}
use duevy_be.Kyc.{
  ApplicationStatus, Gender, KycUser, KycDb, answered, provider_failed, find_kyc_user, to_state,
  is_rep_or_applicant, update_user,
}
use duevy_be.Kyc.Submit.{
  Document, KycSubmission, KycCalls, IdentityStatus, IdentityResult, StoredFile, submit_kyc,
  may_submit, submitted_row, after_verdict, record_identity, discard_file, government_id_time,
  is_kyc_pending, status_from,
}
use duevy_be.Kyc.Refresh.{
  updated, unchanged, refresh_identity, refresh_user, apply_verdict, find_account, send_notice,
  is_unchanged, same_requirements,
}
use duevy_be.Kyc.Runs.{Move, run, apply, submit, review}
use duevy_be.Kyc.Retries.{attempt_of, third_refusal_locks}
use duevy_be.Kyc.Verdicts.{refresh_identity_twice}
use duevy_be.Kyc.Runs.{collects_once_approved, approves, submit_kyc-closes_until_approved}

abbrev ada : KycUser
ada = record {
  account = record {
    id = 1;
    is_suspended = false;
    is_deactivated = false;
    kyc_status = KycStatus.unverified;
    bachs_account_id = none;
    bachs_payouts_active = false;
    student_id_status = none;
    password_hash = none;
  };
  is_rep = false;
  rep_application_status = ApplicationStatus.pending;
  name = 10 ∷ 11 ∷ [];
  email = 12;
  phone = none;
  gender = none;
  bachs_person_id = none;
  kyc_requirements_due = [];
  kyc_attempts = 2;
  kyc_retry_locked_until = none;
  kyc_rejection_reason = none;
  kyc_submitted_at = none;
  kyc_resolved_at = none;
  government_id_submitted_at = none;
  student_id_file_id = none;
  student_id_file_path = none;
  student_id_mime_type = none;
  student_id_uploaded_at = none;
  student_id_reviewed_at = none;
  student_id_reviewed_by_id = none;
  student_id_review_note = none;
  payout_destination_bank_code = none;
  payout_destination_bank_name = none;
  payout_destination_account_masked = none;
  payout_destination_account_name = none;
  payout_destination_submitted_at = none;
}

abbrev start : KycDb
start = record { users = ada ∷ []; discarded = []; notices = [] }

abbrev card : Document
card = record { content = 20; mime_type = 21 }

abbrev sent : KycSubmission
sent = record {
  nin = 30;
  bvn = none;
  dob = 31;
  gender = Gender.female;
  first_name = none;
  last_name = none;
  phone = some 32;
  student_id = card;
  government_id = none;
}

abbrev stored : StoredFile
stored = record { file_id = 40; file_path = 41 }

abbrev passed : IdentityResult
passed = record {
  account_id = 50;
  person_id = 51;
  status = IdentityStatus.verified;
  payouts_active = true;
  failure_reason = none;
  requirements_due = [];
}

-- A provider that accepts the details, and one that refuses them.
abbrev accepting : KycCalls
accepting = record {
  unknown = 0;
  upload = λ id doc. answered stored;
  verify_identity = λ input. answered passed;
  upload_document = λ account person doc. answered tt;
  get_identity_status = λ account person. answered passed;
  resolve_bank = λ bank number. answered (60, 61);
  submit_destination = λ account bank number name. answered tt;
  mask_account_number = λ number. number;
}

abbrev refusing : KycCalls
refusing = record {
  unknown = 0;
  upload = λ id doc. answered stored;
  verify_identity = λ input. provider_failed (some 422) (70 ∷ []);
  upload_document = λ account person doc. answered tt;
  get_identity_status = λ account person. answered passed;
  resolve_bank = λ bank number. answered (60, 61);
  submit_destination = λ account bank number name. answered tt;
  mask_account_number = λ number. number;
}

found : find_kyc_user 1 start.users ≡ some ada
unfolding find_kyc_user find_by
found = refl

accepted :
    (submit_kyc accepting 100 1 sent start).0
    ≡ ok (to_state (submitted_row 100 sent stored passed none ada))
unfolding find_kyc_user find_by submit_kyc may_submit after_verdict record_identity
    is_rep_or_applicant discard_file update_user update_by government_id_time
accepted = refl

-- The administrator refuses the student ID.
abbrev wait : List (KycCalls × ℕ × Move)
wait = (accepting, 500, review 9 1 Decision.rejected (some 3)) ∷ []

abbrev waiting_ada : KycUser
waiting_ada =
    reviewed_row 500 9 Decision.rejected (some 3) (submitted_row 100 sent stored passed none ada)

found_waiting :
    find_kyc_user 1 (run wait (submit_kyc accepting 100 1 sent start).1).users ≡ some waiting_ada
unfolding find_kyc_user find_by run apply submit_kyc may_submit after_verdict record_identity
    is_rep_or_applicant discard_file update_user update_by government_id_time review_student_id
    review_user
found_waiting = refl

submit_kyc-closes_until_approved_example :
    (is_rep_or_applicant ada ≡ true)
    × (is_verified ada.account.kyc_status ≡ false)
    × (is_kyc_pending ada.account.kyc_status && taken ada.bachs_person_id ≡ false)
    × (is_ahead ada.kyc_retry_locked_until 100 ≡ false)
    × ((row : KycUser) × (find_kyc_user 1 (submit_kyc accepting 100 1 sent start).1.users
          ≡ some row)
        × (to_state (submitted_row 100 sent stored passed none ada) ≡ to_state row))
    × (can_collect waiting_ada.account ≡ false)
submit_kyc-closes_until_approved_example =
    submit_kyc-closes_until_approved accepting 100 1 sent ada start wait found accepted (refl, tt)
      found_waiting

may_start : (may_submit refusing 100 ada start).0 ≡ ok tt
unfolding may_submit is_rep_or_applicant
may_start = refl

abbrev again : List (KycCalls × ℕ × KycSubmission)
again = (accepting, 150, sent) ∷ []

third_refusal_locks_example :
    ((submit_kyc refusing 100 1 sent start).0 ≡ err (app_error 422 Code.kyc_rejected))
    × (submit_kyc accepting 200 1 sent
          (run (map (attempt_of 1) again) (submit_kyc refusing 100 1 sent start).1)
        ≡ (err (app_error 429 Code.kyc_retry_locked), (submit_kyc refusing 100 1 sent start).1))
third_refusal_locks_example =
    third_refusal_locks refusing accepting 100 200 1 422 sent sent again (70 ∷ []) stored ada start
      found may_start refl refl (omega arith) (omega arith) (omega arith) (omega arith, tt)
      (omega arith)

-- The provider asks for more than before.
abbrev stricter : KycCalls
stricter = record accepting {
  get_identity_status = λ account person. answered (record passed { requirements_due = 80 ∷ [] });
}

abbrev waiting : KycDb
waiting = (submit_kyc accepting 100 1 sent start).1

refreshed : (refresh_identity stricter 300 50 waiting).0 ≡ ok updated
unfolding find_kyc_user find_by submit_kyc may_submit after_verdict record_identity
    is_rep_or_applicant discard_file update_user update_by government_id_time refresh_identity
    refresh_user apply_verdict find_account send_notice is_unchanged same_requirements status_from
refreshed = refl

refresh_identity_twice_example :
    refresh_identity stricter 400 50 (refresh_identity stricter 300 50 waiting).1
    ≡ (ok unchanged, (refresh_identity stricter 300 50 waiting).1)
refresh_identity_twice_example = refresh_identity_twice stricter 300 400 50 waiting refreshed

abbrev story : List (KycCalls × ℕ × Move)
story = (accepting, 100, submit 1 sent) ∷ (accepting, 500, review 9 1 Decision.approved none) ∷ []

abbrev reviewed_ada : KycUser
reviewed_ada =
    reviewed_row 500 9 Decision.approved none (submitted_row 100 sent stored passed none ada)

found_end : find_kyc_user 1 (run story start).users ≡ some reviewed_ada
unfolding find_kyc_user find_by run apply submit_kyc may_submit after_verdict record_identity
    is_rep_or_applicant discard_file update_user update_by government_id_time review_student_id
    review_user
found_end = refl

ada_collects : can_collect reviewed_ada.account ≡ true
unfolding can_collect status_from
ada_collects = refl

collects_once_approved_example : Any (λ (m : KycCalls × ℕ × Move). approves 1 m.2 ≡ true) story
collects_once_approved_example =
    collects_once_approved story 1 start (refl, tt) found_end ada_collects
