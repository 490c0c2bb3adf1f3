-- ===== src/Withdrawal/Request.antt =====
-- `requestWithdrawal` and `quoteWithdrawal` of src/services/withdrawal.service.ts in full, with
-- `getActiveDiscount` of src/services/partner.service.ts. The new id, the candidates for the
-- reference, the provider and the target that `resolveTarget` finds at the provider are arguments.
use duevy_be.Base.{
  ℕ, ◌+◌, Bool, true, false, ◌&&◌, ◌||◌, ◌==◌, ltb, not, find?, take, if◌then◌else◌, Option, none,
  some, List,
}
use duevy_be.Base.Results.{Result, ok, err, Failure, app_error, Code, plain_error, unique_violation}
use duevy_be.Base.Table.{map_option}
use duevy_be.Bcrypt.{Bcrypt}
use duevy_be.Money.{compute_withdrawal, min_payout_kobo}
use duevy_be.StateMachine.{PayoutStatus, is_payout}
use duevy_be.Store.{Db, Space, Payout, User, SpaceRep, PartnerRedemption}
use duevy_be.Store.Action.{Action, pure, gets, lift, or_raise, ◌>>=◌, ◌>>◌, raise_if, when}
use duevy_be.Signatory.{find_space, find_user, is_multisig}
use duevy_be.Checkout.Create.{can_withdraw, is_verified, lead_rep}
use duevy_be.Withdrawal.Pin.{verify_authorisation, authorise_scope, approval_window_ms}
use duevy_be.Withdrawal.Payouts.{
  find_payout, find_reference, withdraw_tx, PayoutRequest, discount_percent, out_of_range, is_lead,
  taken,
}
use duevy_be.Withdrawal.Dispatch.{PayoutProvider, dispatch_payout}

-- `!endsAt || endsAt > now`
abbrev pub runs_on : Option ℕ → ℕ → Bool
runs_on none now = true
runs_on (some t) now = ltb now t

-- The redemption that discounts a space's fees now: its id and its percentage.
unfoldable pub get_active_discount : ℕ → ℕ → Db → Option (ℕ × ℕ)
get_active_discount now space db =
    map_option (λ (r : PartnerRedemption). (r.id, r.discount_percent))
      (find?
        (λ (r : PartnerRedemption).
          r.space_id == space && (not (taken r.revoked_at) && runs_on r.ends_at now))
        db.redemptions)

pub record Quote : Type 0 where
  pub amount : ℕ
  pub fee : ℕ
  pub net : ℕ
  pub fee_before_discount : ℕ
  pub discount : ℕ
  pub discount_percent : ℕ
  pub min_payout : ℕ
  pub below_minimum : Bool

unfoldable pub quote_withdrawal : ℕ → ℕ → ℕ → Action Quote
quote_withdrawal now space amount = do
  partner ← gets (get_active_discount now space)
  b ← lift (compute_withdrawal amount (discount_percent partner))
  pure (record {
    amount = b.gross;
    fee = b.fee;
    net = b.net;
    fee_before_discount = b.fee_before_discount;
    discount = b.discount;
    discount_percent = discount_percent partner;
    min_payout = min_payout_kobo;
    below_minimum = ltb amount min_payout_kobo;
  })

-- The first of six candidates that no payout has.
unfoldable pub unique_payout_reference : List ℕ → Db → Result ℕ
unique_payout_reference candidates db =
    elim (find? (λ r. not (taken (find_reference r db.payouts))) (take 6 candidates)) [
      | none ↦ err plain_error
      | some r ↦ ok r
    ]

pub record WithdrawalRequest : Type 0 where
  pub space_id : ℕ
  pub user_id : ℕ
  pub amount_kobo : ℕ
  pub due_id : Option ℕ
  pub pin : Option ℕ

-- Where the money goes: the saved beneficiary, if it is one, and the provider's destination.
pub record Target : Type 0 where
  pub beneficiary_id : Option ℕ
  pub destination_id : ℕ

abbrev pub can_pay_out : Option User → Bool
can_pay_out none = false
can_pay_out (some u) = can_withdraw u

abbrev pub lead_user : ℕ → Db → Option User
lead_user space db = elim (lead_rep space db) [
  | none ↦ none
  | some r ↦ find_user r.user_id db.users
]

-- P2002 from the unique index is WITHDRAWAL_IN_PROGRESS.
abbrev pub in_progress : Failure → Failure
in_progress unique_violation = app_error 409 Code.withdrawal_in_progress
in_progress other = other

unfoldable pub renaming : Action Payout → Action Payout
renaming m db =
    let (r, db') = m db in elim r [ ok p ↦ (ok p, db') | err e ↦ (err (in_progress e), db') ]

module _ (bcrypt : Bcrypt) (now fresh_id : ℕ) (candidates : List ℕ) where
  -- What the transaction is run with.
  abbrev pub payout_request :
      WithdrawalRequest → Option (ℕ × ℕ) → Space → Option ℕ → Target → ℕ → ℕ → PayoutRequest
  payout_request req partner space due target account reference = record {
    id = fresh_id;
    reference = reference;
    space_id = req.space_id;
    user_id = req.user_id;
    due_id = due;
    amount_kobo = req.amount_kobo;
    partner = partner;
    approval_expires_at =
        if is_multisig space.withdrawal_auth_mode then some (now + approval_window_ms) else none;
    beneficiary_id = target.beneficiary_id;
    destination_id = target.destination_id;
    account_id = account;
  }

  -- The checks from the freeze of the space on, and what they fix.
  unfoldable pub fix_request :
      (ℕ → Result Target)
      → WithdrawalRequest
      → Option (ℕ × ℕ)
      → Space
      → User
      → SpaceRep
      → Option ℕ
      → Action PayoutRequest
  fix_request resolve_target req partner space user rep due = do
    raise_if space.payouts_frozen (app_error 423 Code.payouts_frozen)
    verify_authorisation bcrypt now space req.pin
    raise_if (not (is_verified user.kyc_status)) (app_error 403 Code.kyc_not_verified)
    lead ← gets (lead_user req.space_id)
    raise_if (not (can_pay_out lead)) (
        app_error 403
          (if is_lead rep.role then Code.kyc_not_verified else Code.lead_kyc_not_verified))
    payer ← or_raise lead plain_error
    account ← or_raise payer.bachs_account_id plain_error
    target ← lift (resolve_target account)
    named ← gets (unique_payout_reference candidates)
    reference ← lift named
    pure (payout_request req partner space due target account reference)

  -- Everything that is checked and fixed before the transaction.
  unfoldable pub check_request : (ℕ → Result Target) → WithdrawalRequest → Action PayoutRequest
  unfolding fix_request
  check_request resolve_target req = do
    raise_if (out_of_range req.amount_kobo) (app_error 422 Code.below_min_payout)
    partner ← gets (get_active_discount now req.space_id)
    breakdown ← lift (compute_withdrawal req.amount_kobo (discount_percent partner))
    found_space ← gets (λ db. find_space req.space_id db.spaces)
    space ← or_raise found_space (app_error 404 Code.not_found)
    found_user ← gets (λ db. find_user req.user_id db.users)
    user ← or_raise found_user (app_error 404 Code.not_found)
    found_rep ← gets (λ db.
        find? (λ (r : SpaceRep). r.user_id == req.user_id && (r.space_id == req.space_id)) db.reps)
    rep ← or_raise found_rep (app_error 403 Code.forbidden)
    raise_if (user.is_suspended || user.is_deactivated) (app_error 403 Code.account_suspended)
    due ← authorise_scope req.due_id req.space_id req.user_id rep.role
    fix_request resolve_target req partner space user rep due

  unfoldable pub request_withdrawal :
      PayoutProvider → (ℕ → Result Target) → WithdrawalRequest → Action Payout
  request_withdrawal provider resolve_target req = do
    r ← check_request resolve_target req
    payout ← renaming (withdraw_tx r)
    when (is_payout payout.status PayoutStatus.pending) (dispatch_payout provider now payout.id)
    after ← gets (λ db. find_payout payout.id db.payouts)
    or_raise after plain_error
