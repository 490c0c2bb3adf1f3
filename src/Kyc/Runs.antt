-- ===== src/Kyc/Runs.antt =====
-- Any order of submissions, verdicts, reviews and documents (src/services/kyc.service.ts).
use duevy_be.Base.{
  ℕ, none, Bool, false, not, ◌==◌, ◌&&◌, ◌⊎◌, ◌∙◌, Any, All-implies, find?-cases, Option-cases, inl,
  inr, ◌≡◌, true, Option, some, List, [], ◌∷◌, All, arith,
}
use duevy_be.Base.Results.{ok}
use duevy_be.Base.Table.{find_by}
use duevy_be.Withdrawal.Payouts.{taken}
use duevy_be.Signatory.{is_ahead}
use duevy_be.Kyc.Closing.{found_id, AllWait, submit_kyc-closes}
use duevy_be.Store.{StudentIdStatus, Decision}
use duevy_be.Checkout.Create.{can_collect, is_verified, is_approved_id}
use duevy_be.Kyc.{KycUser, KycDb, find_kyc_user, KycState, to_state, is_rep_or_applicant}
use duevy_be.Kyc.Submit.{Document, KycSubmission, KycCalls, submit_kyc, is_kyc_pending}
use duevy_be.Kyc.Refresh.{refresh_identity, submit_payout_destination, send_destination}
use duevy_be.Kyc.Review.{
  resubmit_student_id, submit_government_id, review_student_id, resubmit_for, forward_government_id,
  is_refusing, reviewed_row,
}
use duevy_be.Kyc.Reviewed.{
  passes, AllPass, load-Keeps, submit_kyc-Keeps, refresh_identity-Keeps, destination-Keeps,
  resubmit-Keeps, government-Keeps, review-Keeps,
}

-- One request, event or review.
pub data Move : Type 0 where
  submit : ℕ → KycSubmission → Move
  resubmit : ℕ → Document → Move
  send_government_id : ℕ → Document → Move
  send_payout_destination : ℕ → ℕ → ℕ → Move
  refresh : ℕ → Move
  review : ℕ → ℕ → Decision → Option ℕ → Move

-- Each has its time, and meets a provider and a file store of its own.
unfoldable pub apply : KycCalls → ℕ → Move → KycDb → KycDb
apply calls now (submit id input) db = (submit_kyc calls now id input db).1
apply calls now (resubmit id doc) db = (resubmit_student_id calls now id doc db).1
apply calls now (send_government_id id doc) db = (submit_government_id calls now id doc db).1
apply calls now (send_payout_destination id bank number) db =
    (submit_payout_destination calls now id bank number db).1
apply calls now (refresh account) db = (refresh_identity calls now account db).1
apply calls now (review admin id decision remark) db =
    (review_student_id calls now admin id decision remark db).1

unfoldable pub run : List (KycCalls × ℕ × Move) → KycDb → KycDb
run [] db = db
run ((calls, now, m) ∷ moves) db = run moves (apply calls now m db)

module _ (test : ℕ → Option StudentIdStatus → Option ℕ → Option ℕ → Bool)
    (waits : (id : ℕ) → test id (some StudentIdStatus.pending) none none ≡ true) where
  -- Where the move is a review, it leaves a row that passes the test.
  abbrev Allows : Move → Type 0
  Allows (review admin id decision remark) =
      (now : ℕ)
      → is_refusing decision && not (taken remark) ≡ false
      → (v : KycUser) → v.account.id ≡ id
      → passes test waits (reviewed_row now admin decision remark v) ≡ true
  Allows _ = Unit

  review-AllPass :
      (calls : KycCalls) (now admin id : ℕ) (decision : Decision) (remark : Option ℕ) (db : KycDb)
      → Allows (review admin id decision remark)
      → AllPass test waits db
      → AllPass test waits (review_student_id calls now admin id decision remark db).1
  unfolding review_student_id
  review-AllPass calls now admin id decision remark db allowed h =
      elim (Option-cases (find_kyc_user id db.users)) [
        | inl gone ↦ rw gone h
        | inr (u, found) ↦ rw found (
            (review-Keeps test waits calls now admin decision remark u
                (λ noted v own. allowed now noted v (own ∙ found_id id db found))).keeps
              db h)
      ]

  apply-AllPass :
      (calls : KycCalls) (now : ℕ) (m : Move) (db : KycDb)
      → Allows m
      → AllPass test waits db
      → AllPass test waits (apply calls now m db)
  unfolding apply resubmit_student_id submit_government_id submit_payout_destination
  apply-AllPass calls now (submit id input) db allowed h =
      (submit_kyc-Keeps test waits calls now id input).keeps db h
  apply-AllPass calls now (resubmit id doc) db allowed h =
      (load-Keeps test waits id (resubmit_for calls now doc)
          (resubmit-Keeps test waits calls now doc)).keeps
        db h
  apply-AllPass calls now (send_government_id id doc) db allowed h =
      (load-Keeps test waits id (forward_government_id calls now doc)
          (government-Keeps test waits calls now doc)).keeps
        db h
  apply-AllPass calls now (send_payout_destination id bank number) db allowed h =
      (load-Keeps test waits id (send_destination calls now id bank number)
          (destination-Keeps test waits calls now id bank number)).keeps
        db h
  apply-AllPass calls now (refresh account) db allowed h =
      (refresh_identity-Keeps test waits calls now account).keeps db h
  apply-AllPass calls now (review admin id decision remark) db allowed h =
      review-AllPass calls now admin id decision remark db allowed h

  run-AllPass :
      (moves : List (KycCalls × ℕ × Move)) (db : KycDb)
      → All (λ (m : KycCalls × ℕ × Move). Allows m.2) moves
      → AllPass test waits db
      → AllPass test waits (run moves db)
  unfolding run
  run-AllPass [] db all h = h
  run-AllPass ((calls, now, m) ∷ moves) db (allowed, all) h =
      run-AllPass moves (apply calls now m db) all (apply-AllPass calls now m db allowed h)

  found_passes :
      (id : ℕ) (users : List KycUser) {u : KycUser}
      → All (λ (u : KycUser). passes test waits u ≡ true) users
      → find_kyc_user id users ≡ some u
      → passes test waits u ≡ true
  unfolding find_kyc_user find_by
  found_passes id [] h found = absurd (ground arith)
  found_passes id (v ∷ users) {u} (now, rest) found =
      ground (arith, found_passes id users {u = u} rest)

-- An administrator's approval of the student ID of this user.
abbrev pub approves : ℕ → Move → Bool
approves id (review admin other Decision.approved remark) = other == id
approves id _ = false

-- The user's student ID is not approved.
abbrev unapproved : ℕ → ℕ → Option StudentIdStatus → Option ℕ → Option ℕ → Bool
unapproved id other status reviewer remark = not (other == id && is_approved_id status)

unapproved_waits :
    (id other : ℕ) → unapproved id other (some StudentIdStatus.pending) none none ≡ true
unapproved_waits id other = ground arith

unapproved-Allows :
    (id : ℕ) (m : Move) → approves id m ≡ false → Allows (unapproved id) (unapproved_waits id) m
unapproved-Allows id (submit _ _) h = tt
unapproved-Allows id (resubmit _ _) h = tt
unapproved-Allows id (send_government_id _ _) h = tt
unapproved-Allows id (send_payout_destination _ _ _) h = tt
unapproved-Allows id (refresh _) h = tt
unapproved-Allows id (review admin other Decision.approved remark) h =
    λ now noted v own. ground (arith, own, h)
unapproved-Allows id (review admin other Decision.rejected remark) h =
    λ now noted v own. ground arith

waiting_unapproved :
    (id : ℕ) (db : KycDb) → AllWait id db → AllPass (unapproved id) (unapproved_waits id) db
waiting_unapproved id db all = All-implies _ _ db.users (λ v which. one v which) all
  where
    one :
        (v : KycUser)
        → ((v.account.id == id) ≡ false)
          ⊎ (v.account.student_id_status ≡ some StudentIdStatus.pending)
        → passes (unapproved id) (unapproved_waits id) v ≡ true
    one v (inl other) = ground (arith, other)
    one v (inr waiting) = ground (arith, waiting)

stays_closed :
    (id : ℕ) (moves : List (KycCalls × ℕ × Move)) (db : KycDb) {v : KycUser}
    → AllWait id db
    → All (λ (m : KycCalls × ℕ × Move). approves id m.2 ≡ false) moves
    → find_kyc_user id (run moves db).users ≡ some v
    → can_collect v.account ≡ false
unfolding can_collect
stays_closed id moves db {v} waiting none_approves found =
    let own = found_id id (run moves db) found in
    let passed =
      found_passes (unapproved id) (unapproved_waits id) id (run moves db).users {u = v}
        (run-AllPass (unapproved id) (unapproved_waits id) moves db
          (All-implies _ _ moves (λ m h. unapproved-Allows id m.2 h) none_approves)
          (waiting_unapproved id db waiting))
        found in
    ground (arith, own, passed)

-- When a submission is accepted, the user was a rep or an applicant, was not verified, was not
-- waiting for a verdict and was not locked out, and the answer is the state of the row that is stored.
-- Whatever submissions, documents, payout destinations, verdicts and reviews follow, as long as no
-- administrator approves the student ID of this user, the user can not collect.
pub submit_kyc-closes_until_approved :
    (calls : KycCalls) (now id : ℕ) (input : KycSubmission) (u : KycUser) (db : KycDb)
    (moves : List (KycCalls × ℕ × Move)) {s : KycState} {v : KycUser}
    → find_kyc_user id db.users ≡ some u
    → (submit_kyc calls now id input db).0 ≡ ok s
    → All (λ (m : KycCalls × ℕ × Move). approves id m.2 ≡ false) moves
    → find_kyc_user id (run moves (submit_kyc calls now id input db).1).users ≡ some v
    → (is_rep_or_applicant u ≡ true)
      × (is_verified u.account.kyc_status ≡ false)
      × (is_kyc_pending u.account.kyc_status && taken u.bachs_person_id ≡ false)
      × (is_ahead u.kyc_retry_locked_until now ≡ false)
      × ((row : KycUser) × (find_kyc_user id (submit_kyc calls now id input db).1.users ≡ some row)
          × (s ≡ to_state row))
      × (can_collect v.account ≡ false)
submit_kyc-closes_until_approved calls now id input u db moves {s} {v} found accepted none_approves
      later =
    let (a, b, c, d, row, there, gives, closed, waiting) =
      submit_kyc-closes calls now id input u db {s = s} found accepted in
    (
      a,
      b,
      c,
      d,
      (row, there, gives),
      stays_closed id moves (submit_kyc calls now id input db).1 {v = v} waiting none_approves
          later,
    )

-- Start where the student ID of a user is not approved. If after any sequence of submissions,
-- documents, payout destinations, verdicts and reviews, whatever the provider and the file store
-- answer, the user can collect, then an administrator approved the user's student ID in that sequence.
pub collects_once_approved :
    (moves : List (KycCalls × ℕ × Move)) (id : ℕ) (db : KycDb) {v : KycUser}
    → All
        (λ (u : KycUser).
          (u.account.id == id && is_approved_id u.account.student_id_status) ≡ false)
        db.users
    → find_kyc_user id (run moves db).users ≡ some v
    → can_collect v.account ≡ true
    → Any (λ (m : KycCalls × ℕ × Move). approves id m.2 ≡ true) moves
unfolding can_collect
collects_once_approved moves id db {v} start found collects =
    elim (find?-cases (λ (m : KycCalls × ℕ × Move). approves id m.2) moves) [
      | inr (m, _, any) ↦ any
      | inl (_, none_approves) ↦
          let own = found_id id (run moves db) found in
          let passed =
            found_passes (unapproved id) (unapproved_waits id) id (run moves db).users {u = v}
              (run-AllPass (unapproved id) (unapproved_waits id) moves db
                (All-implies _ _ moves (λ m h. unapproved-Allows id m.2 h) none_approves)
                (All-implies _ _ db.users (λ u h. ground (arith, h)) start))
              found in
          absurd (ground (arith, own, passed))
    ]
