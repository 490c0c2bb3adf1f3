-- ===== src/Kyc/Reviewed.antt =====
-- A test of the student ID in each row, kept by every operation of src/services/kyc.service.ts.
use duevy_be.Base.{
  ℕ, ◌+◌, ◌≡◌, Bool, true, false, ◌&&◌, ◌==◌, not, Option, none, some, List, [], ◌∷◌, All,
  Bool-cases, inl, inr, arith,
}
use duevy_be.Base.Results.{app_error, Code, plain_error}
use duevy_be.Base.Table.{update_by}
use duevy_be.Base.Stateful.{modify, gets, ◌>>=◌}
use duevy_be.Base.Stateful.Keeps.{
  Keeps, pure-Keeps, raise-Keeps, lift-Keeps, raise_if-Keeps, or_raise-Keeps, modify-Keeps,
  if-Keeps, bind-Keeps, then-Keeps, gets-Keeps, option-Keeps, guarded-Keeps,
}
use duevy_be.Store.{StudentIdStatus, Decision}
use duevy_be.Withdrawal.Payouts.{taken}
use duevy_be.Kyc.{
  Notice, KycUser, KycDb, Kyc, Answer, answered, provider_failed, failed, or_rethrow, find_kyc_user,
  update_user, user_id, notify, load_user, get_kyc_state, to_state, is_rep_or_applicant,
}
use duevy_be.Kyc.Submit.{
  Document, KycSubmission, KycCalls, submit_kyc, record_identity, after_verdict, may_submit,
  discard_file, identity_input, record_failed_attempt, is_refusal, failed_row, with_student_id,
}
use duevy_be.Kyc.Refresh.{
  refresh_identity, refresh_user, apply_verdict, refreshed_row, send_notice, is_unchanged,
  destination_row, send_destination,
}
use duevy_be.Kyc.Review.{
  resubmit_for, forward_government_id, review_user, reviewed_row, government_row, is_refusing,
  review_notice, has_student_id,
}
use duevy_be.Kyc.Closing.{discard_file-users}
use duevy_be.Kyc.Verdicts.{send_notice-users}

-- A test of the student ID of each row: the id of the user, the status, and the reviewer and the note
-- of the review.
module _ (test : ℕ → Option StudentIdStatus → Option ℕ → Option ℕ → Bool)
    -- A new document waits, with no review.
    (waits : (id : ℕ) → test id (some StudentIdStatus.pending) none none ≡ true) where
  abbrev pub passes : KycUser → Bool
  passes u =
      test u.account.id u.account.student_id_status u.student_id_reviewed_by_id
        u.student_id_review_note

  abbrev pub AllPass : KycDb → Type 0
  AllPass db = All (λ (u : KycUser). passes u ≡ true) db.users

  updated-AllPass :
      (id : ℕ) (f : KycUser → KycUser) (users : List KycUser)
      → ((u : KycUser) → u.account.id ≡ id → passes u ≡ true → passes (f u) ≡ true)
      → All (λ (u : KycUser). passes u ≡ true) users
      → All (λ (u : KycUser). passes u ≡ true) (update_by user_id id f users)
  unfolding update_by
  updated-AllPass id f [] keeps h = tt
  updated-AllPass id f (u ∷ users) keeps (now, rest) = (
    elim (Bool-cases (u.account.id == id)) [
      | inl is ↦ ground (arith, keeps u (ground arith) now)
      | inr other ↦ ground arith
    ],
    updated-AllPass id f users keeps rest,
  )

  -- An update of a user, if each row stays reviewed.
  update-Keeps :
      (id : ℕ) (f : KycUser → KycUser)
      → ((u : KycUser) → passes u ≡ true → passes (f u) ≡ true)
      → Keeps AllPass (modify (update_user id f))
  unfolding update_user
  update-Keeps id f keeps =
      modify-Keeps (update_user id f) λ db h. updated-AllPass id f db.users (λ u is. keeps u) h

  discard-Keeps : (file : Option ℕ) → Keeps AllPass (modify (discard_file file))
  discard-Keeps file = modify-Keeps (discard_file file) λ db h. rw (discard_file-users file db) h

  send-Keeps : (id : ℕ) (n : Option Notice) → Keeps AllPass (modify (send_notice id n))
  send-Keeps id n = modify-Keeps (send_notice id n) λ db h. rw (send_notice-users db id n) h

  pub load-Keeps :
      {A : Type 0} (id : ℕ) (f : KycUser → Kyc A)
      → ((u : KycUser) → Keeps AllPass (f u))
      → Keeps AllPass (load_user id >>= f)
  load-Keeps id f kf =
      bind-Keeps (load_user id) f
        (gets-Keeps (λ (db : KycDb). find_kyc_user id db.users) _ λ o. or_raise-Keeps o plain_error)
        kf

  answer-Keeps :
      {A B : Type 0} (a : Answer A) (f : A → Kyc B) (g : Option ℕ → List ℕ → Kyc B) (k : Kyc B)
      → ((x : A) → Keeps AllPass (f x))
      → ((status : Option ℕ) (message : List ℕ) → Keeps AllPass (g status message))
      → Keeps AllPass k
      → Keeps AllPass (elim a [
        | answered x ↦ f x
        | provider_failed status message ↦ g status message
        | failed ↦ k
      ])
  answer-Keeps (answered x) f g k kf kg kk = kf x
  answer-Keeps (provider_failed status message) f g k kf kg kk = kg status message
  answer-Keeps failed f g k kf kg kk = kk

  module _ (calls : KycCalls) (now : ℕ) where
    pub submit_kyc-Keeps :
        (id : ℕ) (input : KycSubmission) → Keeps AllPass (submit_kyc calls now id input)
    unfolding submit_kyc after_verdict may_submit record_identity record_failed_attempt
    submit_kyc-Keeps id input = load-Keeps id _ λ u.
        then-Keeps (may_submit calls now u) _
          (then-Keeps _ _
            (then-Keeps _ _ (then-Keeps _ _ (raise_if-Keeps _ _) (raise_if-Keeps _ _))
              (raise_if-Keeps _ _))
            (raise_if-Keeps _ _))
          (bind-Keeps _ _ (lift-Keeps _) λ stored.
            answer-Keeps (calls.verify_identity (identity_input calls.unknown u input)) _ _ _
              (λ r.
                then-Keeps _ _
                  (then-Keeps _ _ (update-Keeps u.account.id _ λ v h. waits v.account.id)
                    (discard-Keeps _))
                  (pure-Keeps _))
              (λ status message. then-Keeps _ _ (discard-Keeps _) (
                if-Keeps (is_refusal status) _ _
                  (then-Keeps _ _
                    (update-Keeps u.account.id (failed_row now (u.kyc_attempts + 1) message)
                      λ v h. h)
                    (raise-Keeps _))
                  (raise-Keeps _)))
              (then-Keeps _ _ (discard-Keeps _) (raise-Keeps _)))

    refresh_user-Keeps :
        (account : ℕ) (found : Option KycUser)
        → Keeps AllPass (refresh_user calls now account found)
    unfolding refresh_user apply_verdict
    refresh_user-Keeps account none = pure-Keeps _
    refresh_user-Keeps account (some u) =
        option-Keeps u.bachs_person_id _ _ (pure-Keeps _) λ person.
          bind-Keeps _ _ (lift-Keeps _) λ r. if-Keeps (is_unchanged r u) _ _ (pure-Keeps _) (
            then-Keeps _ _
              (then-Keeps _ _ (update-Keeps u.account.id (refreshed_row now r) λ v h. h)
                (send-Keeps _ _))
              (pure-Keeps _))

    pub refresh_identity-Keeps : (account : ℕ) → Keeps AllPass (refresh_identity calls now account)
    unfolding refresh_identity
    refresh_identity-Keeps account = gets-Keeps _ _ λ found. refresh_user-Keeps account found

    get_kyc_state-Keeps : (id : ℕ) → Keeps AllPass (get_kyc_state id)
    unfolding get_kyc_state
    get_kyc_state-Keeps id =
        load-Keeps id (λ u. gets (λ db. to_state u)) λ u. record { keeps = λ db h. h }

    pub destination-Keeps :
        (id bank number : ℕ) (u : KycUser)
        → Keeps AllPass (send_destination calls now id bank number u)
    unfolding send_destination
    destination-Keeps id bank number u =
        option-Keeps u.account.bachs_account_id _ _ (raise-Keeps _) λ account.
          option-Keeps u.bachs_person_id _ _ (raise-Keeps _) λ person.
            bind-Keeps _ _ (lift-Keeps (or_rethrow (calls.resolve_bank bank number)))
              λ (names : ℕ × ℕ).
                then-Keeps _ _
                  (then-Keeps _ _
                    (lift-Keeps (or_rethrow (calls.submit_destination account bank number names.1)))
                    (update-Keeps id (destination_row calls now bank number names.0 names.1)
                      λ v h. h))
                  (bind-Keeps _ _ (refresh_identity-Keeps account) λ done. get_kyc_state-Keeps id)

    pub resubmit-Keeps :
        (doc : Document) (u : KycUser) → Keeps AllPass (resubmit_for calls now doc u)
    unfolding resubmit_for
    resubmit-Keeps doc u =
        then-Keeps _ _
          (raise_if-Keeps (not (is_rep_or_applicant u)) (app_error 403 Code.rep_not_approved))
          (then-Keeps _ _
            (raise_if-Keeps (has_student_id StudentIdStatus.approved u)
              (app_error 409 Code.student_id_approved))
            (then-Keeps _ _
              (raise_if-Keeps (has_student_id StudentIdStatus.pending u)
                (app_error 409 Code.student_id_pending))
              (bind-Keeps _ _ (lift-Keeps (or_rethrow (calls.upload u.account.id doc))) λ stored.
                then-Keeps _ _
                  (update-Keeps u.account.id (with_student_id now stored doc)
                    λ v h. waits v.account.id)
                  (then-Keeps _ _ (discard-Keeps u.student_id_file_id)
                    (pure-Keeps (to_state (with_student_id now stored doc u)))))))

    pub government-Keeps :
        (doc : Document) (u : KycUser) → Keeps AllPass (forward_government_id calls now doc u)
    unfolding forward_government_id
    government-Keeps doc u = option-Keeps u.account.bachs_account_id _ _ (raise-Keeps _) λ account.
        option-Keeps u.bachs_person_id _ _ (raise-Keeps _) λ person.
          then-Keeps _ _
            (then-Keeps _ _ (lift-Keeps _)
              (update-Keeps u.account.id (government_row now) λ v h. h))
            (pure-Keeps _)

    pub review-Keeps :
        (admin : ℕ) (decision : Decision) (remark : Option ℕ) (u : KycUser)
        → (is_refusing decision && not (taken remark) ≡ false
            → (v : KycUser) → v.account.id ≡ u.account.id
            → passes (reviewed_row now admin decision remark v) ≡ true)
        → Keeps AllPass (review_user calls now admin decision remark u)
    unfolding review_user update_user
    review-Keeps admin decision remark u decided =
        then-Keeps _ _
          (raise_if-Keeps (not (has_student_id StudentIdStatus.pending u))
            (app_error 409 Code.not_pending))
          (guarded-Keeps (is_refusing decision && not (taken remark))
            (app_error 400 Code.validation_error) _
            λ noted.
              then-Keeps _ _
                (modify-Keeps (update_user u.account.id (reviewed_row now admin decision remark))
                  λ db h.
                    updated-AllPass u.account.id (reviewed_row now admin decision remark) db.users
                      (λ v own is. decided noted v own) h)
                (then-Keeps _ _
                  (modify-Keeps (notify u.account.id (review_notice decision)) λ db h. h)
                  (pure-Keeps (to_state (reviewed_row now admin decision remark u)))))
