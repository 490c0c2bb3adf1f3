-- ===== src/Kyc/Retries.antt =====
-- Refused identities are counted, and the third locks the rep out for a day (`submitKyc` and
-- `recordFailedAttempt` of src/services/kyc.service.ts).
use duevy_be.Base.{ℕ, ◌+◌, ◌<◌, ◌≤◌, ◌≡◌, refl, true, Option, some, List, [], ◌∷◌, All, map, arith}
use duevy_be.Base.Results.{ok, err, app_error, Code}
use duevy_be.Store.{KycStatus}
use duevy_be.Kyc.{KycUser, KycDb, answered, provider_failed, find_kyc_user, is_rep_or_applicant}
use duevy_be.Kyc.Submit.{
  KycSubmission, KycCalls, StoredFile, submit_kyc, after_verdict, may_submit, discard_file,
  identity_input, record_failed_attempt, is_refusal, failed_row, kyc_retry_lock_ms,
}
use duevy_be.Kyc.Runs.{Move, submit, apply, run}
use duevy_be.Kyc.Closing.{
  found-updated, found_id, discard_file-users, submit_kyc_lem, may_submit-ok,
}

-- A refusal throws the new file away and counts.
pub refused_counts :
    (calls : KycCalls) (now : ℕ) (u : KycUser) (input : KycSubmission) (stored : StoredFile)
    (status : Option ℕ) (message : List ℕ) (db : KycDb)
    → find_kyc_user u.account.id db.users ≡ some u
    → calls.verify_identity (identity_input calls.unknown u input) ≡ provider_failed status message
    → is_refusal status ≡ true
    → let after = after_verdict calls now u input stored db in
      (after.0 ≡ err (app_error 422 Code.kyc_rejected))
      × (find_kyc_user u.account.id after.1.users
          ≡ some (failed_row now (u.kyc_attempts + 1) message u))
unfolding after_verdict record_failed_attempt
refused_counts calls now u input stored status message db found said_no counts =
    let kept = discard_file (some stored.file_id) db in
    let same = discard_file-users (some stored.file_id) db in
    let there =
      found-updated u.account.id u (failed_row now (u.kyc_attempts + 1) message) kept (λ v. refl)
        (ground (arith, same)) in
    (ground arith, ground (arith, there))

locked_refuses :
    (calls : KycCalls) (later id until : ℕ) (input : KycSubmission) (u : KycUser) (db : KycDb)
    → find_kyc_user id db.users ≡ some u
    → is_rep_or_applicant u ≡ true
    → u.account.kyc_status ≡ KycStatus.rejected
    → u.kyc_retry_locked_until ≡ some until
    → later < until
    → submit_kyc calls later id input db ≡ (err (app_error 429 Code.kyc_retry_locked), db)
unfolding may_submit
locked_refuses calls later id until input u db found rep status locked soon =
    ground (arith, submit_kyc_lem calls later id input u db found)

abbrev pub attempt_of : ℕ → KycCalls × ℕ × KycSubmission → KycCalls × ℕ × Move
attempt_of id (calls, later, input) = (calls, later, submit id input)

-- More submissions of a locked user.
stays_locked :
    (id until : ℕ) (attempts : List (KycCalls × ℕ × KycSubmission)) (u : KycUser) (db : KycDb)
    → find_kyc_user id db.users ≡ some u
    → is_rep_or_applicant u ≡ true
    → u.account.kyc_status ≡ KycStatus.rejected
    → u.kyc_retry_locked_until ≡ some until
    → All (λ (a : KycCalls × ℕ × KycSubmission). a.1 < until) attempts
    → run (map (attempt_of id) attempts) db ≡ db
unfolding run apply
stays_locked id until [] u db found rep status locked all = refl
stays_locked id until ((calls, later, input) ∷ attempts) u db found rep status locked (soon, all) =
    let out = locked_refuses calls later id until input u db found rep status locked soon in
    ground (arith, out, stays_locked id until attempts u db found rep status locked all)

-- A submission that the provider refuses, by a user who passes the guards and was refused twice or
-- more before, is answered 422. As long as only submissions of that user follow, each of them within
-- 24 hours is answered 429 and changes nothing, whatever it holds and whatever the provider and the
-- file store would answer.
pub third_refusal_locks :
    (calls others : KycCalls) (now later id status : ℕ) (input next : KycSubmission)
    (attempts : List (KycCalls × ℕ × KycSubmission)) (message : List ℕ) (stored : StoredFile)
    (u : KycUser) (db : KycDb) {done : Unit {0}}
    → find_kyc_user id db.users ≡ some u
    → (may_submit calls now u db).0 ≡ ok done
    → calls.upload u.account.id input.student_id ≡ answered stored
    → calls.verify_identity (identity_input calls.unknown u input)
      ≡ provider_failed (some status) message
    → 400 ≤ status
    → status < 500
    → 2 ≤ u.kyc_attempts
    → All (λ (a : KycCalls × ℕ × KycSubmission). a.1 < now + kyc_retry_lock_ms) attempts
    → later < now + kyc_retry_lock_ms
    → let after = submit_kyc calls now id input db in
      (after.0 ≡ err (app_error 422 Code.kyc_rejected))
      × (submit_kyc others later id next (run (map (attempt_of id) attempts) after.1)
          ≡ (err (app_error 429 Code.kyc_retry_locked), after.1))
unfolding is_rep_or_applicant
third_refusal_locks calls others now later id status input next attempts message stored u db found
      passed up refused low high twice all soon =
    let key = found_id id db found in
    let is : submit_kyc calls now id input db ≡ after_verdict calls now u input stored db =
      ground (arith, submit_kyc_lem calls now id input u db found) in
    let (answer, there) =
      refused_counts calls now u input stored (some status) message db (ground (arith, key)) refused
        (ground arith) in
    let (rep, fresh, idle, free) = may_submit-ok calls now u db passed in
    let row = failed_row now (u.kyc_attempts + 1) message u in
    let after = (submit_kyc calls now id input db).1 in
    let locked : find_kyc_user id after.users ≡ some row = ground (arith, is, there, key) in
    let lock : row.kyc_retry_locked_until ≡ some (now + kyc_retry_lock_ms) = ground arith in
    (
      ground (arith, is, answer),
      rw
          (stays_locked id (now + kyc_retry_lock_ms) attempts row after locked (ground (arith, rep))
            refl lock all)
          (locked_refuses others later id (now + kyc_retry_lock_ms) next row after locked
            (ground (arith, rep)) refl lock soon),
    )
