-- ===== src/Approval.antt =====
-- src/services/withdrawalApproval.service.ts: a multisig withdrawal waits until two of its space's
-- signatories approve it, each with a one-time code. Emails, notices and the audit trail are left out.
pub mod Signing
use duevy_be.Base.{
  ℕ, ◌+◌, Bool, true, false, ◌&&◌, ◌==◌, ltb, leb, not, holds, if◌then◌else◌, Option, none, some,
  List, [], ◌∷◌, map, keep, find?, mem?, take,
}
use duevy_be.Base.Results.{Failure, app_error, unique_violation, plain_error, Code, ok, err}
use duevy_be.Bcrypt.{Bcrypt}
use duevy_be.StateMachine.{PayoutStatus, is_payout}
use duevy_be.Store.{Db, Payout, PayoutApproval, PayoutOtp, Decision}
use duevy_be.Store.Action.{
  Action, pure, raise, gets, or_raise, ◌>>=◌, ◌>>◌, raise_if, modify, when, transaction,
  ignore_errors,
}
use duevy_be.Signatory.{get_signatory_ids}
use duevy_be.Withdrawal.Payouts.{find_payout, lock_payout, cancel_tx, release_tx, taken}
use duevy_be.Withdrawal.Dispatch.{PayoutProvider, dispatch_payout}

abbrev pub required_approvals : ℕ
required_approvals = 2

abbrev pub otp_ttl_ms : ℕ
otp_ttl_ms = 600000

abbrev pub otp_max_attempts : ℕ
otp_max_attempts = 5

abbrev pub otp_resend_ms : ℕ
otp_resend_ms = 60000

-- `findUnique({ where: { payoutId_repUserId } })`
unfoldable pub find_approval : ℕ → ℕ → List PayoutApproval → Option PayoutApproval
find_approval payout user =
    find? (λ (a : PayoutApproval). a.payout_id == payout && (a.rep_user_id == user))

abbrev pub otp_is : ℕ → ℕ → PayoutOtp → Bool
otp_is payout user o = o.payout_id == payout && (o.user_id == user)

unfoldable pub find_otp : ℕ → ℕ → List PayoutOtp → Option PayoutOtp
find_otp payout user = find? (otp_is payout user)

abbrev pub without_otp : ℕ → ℕ → Db → Db
without_otp payout user db = record db { otps = keep (λ o. not (otp_is payout user o)) db.otps }

-- `x && x <= now`
abbrev pub is_past : Option ℕ → ℕ → Bool
is_past none now = false
is_past (some t) now = leb t now

abbrev pub is_awaiting : Payout → Bool
is_awaiting p = is_payout p.status PayoutStatus.awaiting_approval

-- `!payout || payout.spaceId !== spaceId`
unfoldable pub payout_of : ℕ → ℕ → Action Payout
payout_of payout_id space_id = do
  found ← gets (λ db. find_payout payout_id db.payouts)
  payout ← or_raise found (app_error 404 Code.not_found)
  raise_if (not (payout.space_id == space_id)) (app_error 404 Code.not_found)
  pure payout

-- A withdrawal past its window is cancelled on the way.
unfoldable pub load_for_signing : ℕ → ℕ → ℕ → ℕ → Action (Payout × List ℕ)
load_for_signing now payout_id space_id user_id = do
  payout ← payout_of payout_id space_id
  raise_if (not (is_awaiting payout)) (app_error 409 Code.not_awaiting_approval)
  if is_past payout.approval_expires_at now
      then (do done ← cancel_tx payout.id; raise (app_error 409 Code.approval_expired))
      else (do
        signatories ← gets (get_signatory_ids space_id)
        raise_if (not (mem? user_id signatories)) (app_error 403 Code.not_a_signatory)
        signed ← gets (λ db. find_approval payout_id user_id db.approvals)
        raise_if (taken signed) (app_error 409 Code.already_signed)
        pure (payout, signatories))

-- `approvals.count({ where: { decision: 'approved', repUserId: { in: signatories } } })`
abbrev pub is_approved : Decision → Bool
is_approved Decision.approved = true
is_approved Decision.rejected = false

unfoldable pub count_approvals : ℕ → List ℕ → List PayoutApproval → ℕ
count_approvals payout signatories [] = 0
count_approvals payout signatories (a ∷ as') =
    let rest = count_approvals payout signatories as' in
    if a.payout_id == payout && (is_approved a.decision && mem? a.rep_user_id signatories)
    then rest + 1
    else rest

-- The unique key (payoutId, repUserId).
unfoldable pub create_approval : PayoutApproval → Action (Unit {0})
create_approval a db =
    if taken (find_approval a.payout_id a.rep_user_id db.approvals)
    then (err unique_violation, db)
    else (ok tt, record db { approvals = a ∷ db.approvals })

-- The transaction of `approvePayout`; the answer is how many have approved.
unfoldable pub approve_tx : ℕ → ℕ → List ℕ → Action ℕ
approve_tx payout_id user_id signatories = transaction do
  p ← lock_payout payout_id
  raise_if (not (is_awaiting p)) (app_error 409 Code.not_awaiting_approval)
  create_approval
      (record { payout_id = payout_id; rep_user_id = user_id; decision = Decision.approved })
  modify (without_otp payout_id user_id)
  approvals ← gets (λ db. count_approvals payout_id signatories db.approvals)
  when (leb required_approvals approvals) (release_tx p.id)
  pure approvals

-- `decision: 'rejected'`, on the signatory's own row or a new one.
abbrev pub reject_row : ℕ → ℕ → PayoutApproval → PayoutApproval
reject_row payout user a =
    if a.payout_id == payout && (a.rep_user_id == user)
    then record a { decision = Decision.rejected }
    else a

unfoldable pub upsert_rejection : ℕ → ℕ → Db → Db
upsert_rejection payout user db =
    if taken (find_approval payout user db.approvals)
    then record db { approvals = map (reject_row payout user) db.approvals }
    else record db {
      approvals =
          record { payout_id = payout; rep_user_id = user; decision = Decision.rejected }
          ∷ db.approvals;
    }

unfoldable pub reject_payout : ℕ → ℕ → ℕ → Action (Unit {0})
reject_payout payout_id space_id user_id = do
  payout ← payout_of payout_id space_id
  raise_if (not (is_awaiting payout)) (app_error 409 Code.not_awaiting_approval)
  signatories ← gets (get_signatory_ids space_id)
  let is_signatory = mem? user_id signatories
  raise_if (not is_signatory && not (holds user_id payout.requested_by_id))
      (app_error 403 Code.not_a_signatory)
  when is_signatory (modify (upsert_rejection payout_id user_id))
  cancelled ← cancel_tx payout_id
  raise_if (not cancelled) (app_error 409 Code.not_awaiting_approval)

-- `awaiting_approval` withdrawals past their window, at most fifty at a time.
unfoldable pub stale_approvals : ℕ → Db → List Payout
stale_approvals now db =
    take 50 (keep (λ (p : Payout). is_awaiting p && is_past p.approval_expires_at now) db.payouts)

unfoldable pub cancel_each : List Payout → Action (Unit {0})
cancel_each [] = pure tt
cancel_each (p ∷ ps) = ignore_errors (cancel_tx p.id) >> cancel_each ps

unfoldable pub expire_stale_approvals : ℕ → Action (Unit {0})
expire_stale_approvals now = do stale ← gets (stale_approvals now); cancel_each stale

module _ (bcrypt : Bcrypt) (now : ℕ) where
  -- `salt` and `code` are what bcrypt and `randomInt` draw. The answer is the code's end.
  unfoldable pub send_approval_otp : ℕ → ℕ → ℕ → ℕ → ℕ → Action ℕ
  send_approval_otp salt code payout_id space_id user_id = do
    loaded ← load_for_signing now payout_id space_id user_id
    existing ← gets (λ db. find_otp payout_id user_id db.otps)
    raise_if (sent_recently existing) (app_error 429 Code.otp_recently_sent)
    modify (λ db. record (without_otp payout_id user_id db) {
      otps =
          record {
            payout_id = payout_id;
            user_id = user_id;
            code_hash = bcrypt.hash salt code;
            attempts = 0;
            expires_at = now + otp_ttl_ms;
            created_at = now;
          }
          ∷ (without_otp payout_id user_id db).otps;
    })
    pure (now + otp_ttl_ms)
    where
      sent_recently : Option PayoutOtp → Bool
      sent_recently none = false
      sent_recently (some o) = ltb now (o.created_at + otp_resend_ms)

  abbrev pub count_attempt : ℕ → ℕ → PayoutOtp → PayoutOtp
  count_attempt payout user o =
      if otp_is payout user o then record o { attempts = o.attempts + 1 } else o

  -- Wrong guesses are counted; the fifth voids the code.
  unfoldable pub check_otp : ℕ → ℕ → ℕ → Action (Unit {0})
  check_otp payout_id user_id otp = do
    found ← gets (λ db. find_otp payout_id user_id db.otps)
    row ← or_raise found (app_error 400 Code.otp_expired)
    raise_if (leb row.expires_at now) (app_error 400 Code.otp_expired)
    when (not (bcrypt.compare otp row.code_hash)) (do
      modify (λ db. record db { otps = map (count_attempt payout_id user_id) db.otps })
      after ← gets (λ db. find_otp payout_id user_id db.otps)
      updated ← or_raise after plain_error
      if leb otp_max_attempts updated.attempts
          then (modify (without_otp payout_id user_id) >> raise (app_error 423 Code.otp_locked))
          else raise (app_error 403 Code.invalid_otp))

  module _ (provider : PayoutProvider) where
    -- P2002 from the approval's unique key is ALREADY_SIGNED.
    abbrev pub rename_violation : Failure → Failure
    rename_violation unique_violation = app_error 409 Code.already_signed
    rename_violation other = other

    unfoldable pub approve_payout : ℕ → ℕ → ℕ → ℕ → Action ℕ
    approve_payout payout_id space_id user_id otp = do
      loaded ← load_for_signing now payout_id space_id user_id
      check_otp payout_id user_id otp
      approvals ← renamed (approve_tx payout_id user_id loaded.1)
      when (leb required_approvals approvals) (dispatch_payout provider now payout_id)
      pure approvals
      where
        renamed : Action ℕ → Action ℕ
        renamed m db =
            let (r, db') = m db in
            elim r [ ok n ↦ (ok n, db') | err e ↦ (err (rename_violation e), db') ]
