-- ===== src/Kyc/Closing.antt =====
-- Sending an identity closes collection (`submitKyc` of src/services/kyc.service.ts).
use duevy_be.Base.{
  ◌==◌, ◌⊎◌, All, List, [], ◌∷◌, ℕ, ◌≡◌, refl, true, false, ◌&&◌, Option, none, some, Bool-cases,
  inl, inr, arith,
}
use duevy_be.Base.Results.{ok, err, Result-cases}
use duevy_be.Base.Table.{update_by, find_by-update_by, find_by-key}
use duevy_be.Store.{StudentIdStatus}
use duevy_be.Signatory.{is_ahead}
use duevy_be.Withdrawal.Payouts.{taken}
use duevy_be.Checkout.Create.{can_collect, is_verified}
use duevy_be.Kyc.{
  KycUser, KycDb, Answer-cases, or_rethrow, find_kyc_user, update_user, user_id, KycState, to_state,
  is_rep_or_applicant,
}
use duevy_be.Kyc.Submit.{
  KycSubmission, KycCalls, IdentityResult, StoredFile, submit_kyc, record_identity, after_verdict,
  may_submit, submitted_row, discard_file, superseded, government_id_time, identity_input,
  is_kyc_pending, is_refusal,
}

-- A row after an update of it.
pub found-updated :
    (id : ℕ) (u : KycUser) (f : KycUser → KycUser) (db : KycDb)
    → ((v : KycUser) → (f v).account.id ≡ v.account.id)
    → find_kyc_user id db.users ≡ some u
    → find_kyc_user id (update_user id f db).users ≡ some (f u)
unfolding find_kyc_user update_user
found-updated id u f db keeps found =
    ground (arith, find_by-update_by user_id id id f db.users keeps)

pub found_id :
    (id : ℕ) (db : KycDb) {u : KycUser} → find_kyc_user id db.users ≡ some u → u.account.id ≡ id
unfolding find_kyc_user
found_id id db found = find_by-key user_id id db.users found

pub discard_file-users : (file : Option ℕ) (db : KycDb) → (discard_file file db).users ≡ db.users
unfolding discard_file
discard_file-users none db = refl
discard_file-users (some id) db = refl

-- The guards write nothing.
pub may_submit-same :
    (calls : KycCalls) (now : ℕ) (u : KycUser) (db : KycDb) → (may_submit calls now u db).1 ≡ db
unfolding may_submit
may_submit-same calls now u db = ground arith

-- Each row with the id has a student ID that waits for its review.
abbrev pub AllWait : ℕ → KycDb → Type 0
AllWait id db =
    All
      (λ (v : KycUser).
        ((v.account.id == id) ≡ false)
        ⊎ (v.account.student_id_status ≡ some StudentIdStatus.pending))
      db.users

updated-AllWait :
    (id : ℕ) (f : KycUser → KycUser) (users : List KycUser)
    → ((v : KycUser) → (f v).account.student_id_status ≡ some StudentIdStatus.pending)
    → All
        (λ (v : KycUser).
          ((v.account.id == id) ≡ false)
          ⊎ (v.account.student_id_status ≡ some StudentIdStatus.pending))
        (update_by user_id id f users)
unfolding update_by
updated-AllWait id f [] waits = tt
updated-AllWait id f (u ∷ users) waits = (
  elim (Bool-cases (u.account.id == id)) [
    | inl is ↦ rw is (inr (waits u))
    | inr other ↦ rw other (inl other)
  ],
  updated-AllWait id f users waits,
)

-- What an answered submission leaves.
answered-closes :
    (calls : KycCalls) (now : ℕ) (u : KycUser) (input : KycSubmission) (stored : StoredFile)
    (r : IdentityResult) (db : KycDb)
    → find_kyc_user u.account.id db.users ≡ some u
    → let after = record_identity calls now u input stored r db in
      (row : KycUser) × (find_kyc_user u.account.id after.1.users ≡ some row)
      × (after.0 ≡ ok (to_state row))
      × (can_collect row.account ≡ false)
      × AllWait u.account.id after.1
unfolding record_identity can_collect update_user
answered-closes calls now u input stored r db found =
    let time = government_id_time calls now r input.government_id u.government_id_submitted_at in
    let f = submitted_row now input stored r time in
    let there = found-updated u.account.id u f db (λ v. refl) found in
    let same =
      discard_file-users (superseded u.student_id_file_id stored.file_id)
        (update_user u.account.id f db) in
    (
      f u,
      ground (arith, there, same),
      ground arith,
      ground arith,
      rw (same, All) (updated-AllWait u.account.id f db.users (λ v. refl)),
    )

-- A submission of a user that is there, step by step.
pub submit_kyc_lem :
    (calls : KycCalls) (now id : ℕ) (input : KycSubmission) (u : KycUser) (db : KycDb)
    → find_kyc_user id db.users ≡ some u
    → submit_kyc calls now id input db ≡ elim (may_submit calls now u db).0 [
      | err e ↦ (err e, db)
      | ok done ↦ elim (or_rethrow (calls.upload u.account.id input.student_id)) [
        | err e ↦ (err e, db)
        | ok stored ↦ after_verdict calls now u input stored db
      ]
    ]
unfolding submit_kyc
submit_kyc_lem calls now id input u db found = ground (arith, may_submit-same calls now u db)

-- Who gets past the guards.
pub may_submit-ok :
    (calls : KycCalls) (now : ℕ) (u : KycUser) (db : KycDb) {done : Unit {0}}
    → (may_submit calls now u db).0 ≡ ok done
    → (is_rep_or_applicant u ≡ true)
      × (is_verified u.account.kyc_status ≡ false)
      × (is_kyc_pending u.account.kyc_status && taken u.bachs_person_id ≡ false)
      × (is_ahead u.kyc_retry_locked_until now ≡ false)
unfolding may_submit
may_submit-ok calls now u db passed = (ground arith, ground arith, ground arith, ground arith)

verdict-closes :
    (calls : KycCalls) (now : ℕ) (u : KycUser) (input : KycSubmission) (stored : StoredFile)
    (db : KycDb) {s : KycState}
    → find_kyc_user u.account.id db.users ≡ some u
    → let after = after_verdict calls now u input stored db in
      after.0 ≡ ok s
      → (row : KycUser) × (find_kyc_user u.account.id after.1.users ≡ some row)
        × (after.0 ≡ ok (to_state row))
        × (can_collect row.account ≡ false)
        × AllWait u.account.id after.1
unfolding after_verdict
verdict-closes calls now u input stored db found done =
    elim (Answer-cases (calls.verify_identity (identity_input calls.unknown u input))) [
      | inl (r, is) ↦ rw (is, after_verdict) (answered-closes calls now u input stored r db found)
      | inr (inl (status, message, is)) ↦ elim (Bool-cases (is_refusal status)) [
        | inl refused ↦ absurd (ground arith)
        | inr lost ↦ absurd (ground arith)
      ]
      | inr (inr is) ↦ absurd (ground arith)
    ]

-- When a submission is accepted, the user was a rep or an applicant, was not verified, was not
-- waiting for a verdict and was not locked out; the answer is the state of the row that is stored
-- now; that row can not collect; and its student ID waits for a review.
pub submit_kyc-closes :
    (calls : KycCalls) (now id : ℕ) (input : KycSubmission) (u : KycUser) (db : KycDb)
    {s : KycState}
    → find_kyc_user id db.users ≡ some u
    → (submit_kyc calls now id input db).0 ≡ ok s
    → (is_rep_or_applicant u ≡ true)
      × (is_verified u.account.kyc_status ≡ false)
      × (is_kyc_pending u.account.kyc_status && taken u.bachs_person_id ≡ false)
      × (is_ahead u.kyc_retry_locked_until now ≡ false)
      × (row : KycUser) × (find_kyc_user id (submit_kyc calls now id input db).1.users ≡ some row)
      × (s ≡ to_state row)
      × (can_collect row.account ≡ false)
      × AllWait id (submit_kyc calls now id input db).1
submit_kyc-closes calls now id input u db {s} found done =
    let step = submit_kyc_lem calls now id input u db found in
    let key = found_id id db found in
    elim (Result-cases (may_submit calls now u db).0) [
      | inr (e, out) ↦ absurd (ground (arith, step))
      | inl (d, passed) ↦
          elim (Result-cases (or_rethrow (calls.upload u.account.id input.student_id))) [
            | inr (e, out) ↦ absurd (ground (arith, step))
            | inl (stored, up) ↦
                let is : submit_kyc calls now id input db
                    ≡ after_verdict calls now u input stored db =
                  ground (arith, step) in
                let (a, b, c, d) = may_submit-ok calls now u db passed in
                let (row, there, gives, closed, waiting) =
                  verdict-closes calls now u input stored db {s = s} (ground (arith, key))
                    (ground (arith, is)) in
                (
                  a,
                  b,
                  c,
                  d,
                  row,
                  ground (arith, is, key, there),
                  ground (arith, is, gives),
                  closed,
                  rw (is, ← key) waiting,
                )
          ]
    ]
