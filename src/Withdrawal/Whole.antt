-- ===== src/Withdrawal/Whole.antt =====
-- The whole request for a withdrawal, from its guards to the provider's answer (`requestWithdrawal` of
-- src/services/withdrawal.service.ts), keeps payouts and ledger consistent.
use duevy_be.Base.{
  ℕ, ◌+◌, ◌≡◌, inl, inr, arith, ◌==◌, ◌&&◌, ◌||◌, not, leb, ltb, length, find?, holds, Option, none,
  some, List, if◌then◌else◌,
}
use duevy_be.Base.Results.{Result, Result-cases, app_error, Code, plain_error}
use duevy_be.Base.Table.{find_by}
use duevy_be.Base.Stateful.Keeps.{
  pure-Keeps, raise-Keeps, raise_if-Keeps, or_raise-Keeps, lift-Keeps, modify-Keeps, if-Keeps,
  bind-Keeps, then-Keeps, gets-Keeps, when-Keeps,
}
use duevy_be.Bcrypt.{Bcrypt}
use duevy_be.Money.{compute_withdrawal}
use duevy_be.StateMachine.{PayoutStatus, is_payout}
use duevy_be.Store.{Db, Space, Due, User, Payout, RepRole, SpaceRep}
use duevy_be.Store.Action.{Action, modify}
use duevy_be.Signatory.{
  find_space, find_user, update_space, is_multisig, is_ahead, get_signatory_ids,
  required_signatories,
}
use duevy_be.Checkout.Create.{is_verified}
use duevy_be.Withdrawal.Payouts.{find_payout, withdraw_tx, discount_percent, out_of_range, is_lead}
use duevy_be.Withdrawal.Invariant.{IsConsistent}
use duevy_be.Withdrawal.Create.{withdraw_tx-IsConsistent}
use duevy_be.Withdrawal.Dispatch.{PayoutProvider}
use duevy_be.Withdrawal.Provider.{IsSafe, dispatch_payout-IsSafe}
use duevy_be.Withdrawal.Pin.{
  wrong_pin, check_pin, verify_authorisation, authorise_scope, count_failure, set_failed,
  pin_lock_ms, pin_max_attempts,
}
use duevy_be.Withdrawal.Request.{
  WithdrawalRequest, Target, check_request, fix_request, payout_request, renaming,
  request_withdrawal, get_active_discount, can_pay_out, lead_user, unique_payout_reference,
}

space-IsSafe : (id : ℕ) (f : Space → Space) → IsSafe (modify (update_space id f))
unfolding update_space
space-IsSafe id f = modify-Keeps (update_space id f) λ db c. c

module _ (bcrypt : Bcrypt) (now : ℕ) where
  wrong_pin-IsSafe : (s : Space) → IsSafe (wrong_pin bcrypt now s)
  unfolding wrong_pin
  wrong_pin-IsSafe s = then-Keeps _ _ (space-IsSafe s.id count_failure) (
      gets-Keeps (λ (db : Db). find_space s.id db.spaces) _
        λ found. bind-Keeps _ _ (or_raise-Keeps found plain_error) λ after.
          if-Keeps (leb pin_max_attempts after.withdrawal_pin_failed_attempts) _ _
            (then-Keeps _ _ (space-IsSafe s.id (set_failed 0 (some (now + pin_lock_ms))))
              (raise-Keeps (app_error 423 Code.withdrawal_pin_locked)))
            (raise-Keeps (app_error 403 Code.invalid_withdrawal_pin)))

  check_pin-IsSafe : (s : Space) (pin : ℕ) → IsSafe (check_pin bcrypt now s pin)
  unfolding check_pin
  check_pin-IsSafe s pin =
      bind-Keeps _ _
        (or_raise-Keeps s.withdrawal_pin_hash (app_error 403 Code.withdrawal_pin_not_set))
        λ hash.
          then-Keeps _ _
            (raise_if-Keeps (is_ahead s.withdrawal_pin_locked_until now)
              (app_error 423 Code.withdrawal_pin_locked))
            (if-Keeps (bcrypt.compare pin hash) _ _
              (when-Keeps (ltb 0 s.withdrawal_pin_failed_attempts) _
                (space-IsSafe s.id (set_failed 0 none)))
              (wrong_pin-IsSafe s))

  verify_authorisation-IsSafe :
      (s : Space) (pin : Option ℕ) → IsSafe (verify_authorisation bcrypt now s pin)
  unfolding verify_authorisation
  verify_authorisation-IsSafe s pin =
      then-Keeps _ _
        (raise_if-Keeps (is_ahead s.withdrawal_pin_hold_until now)
          (app_error 423 Code.withdrawal_pin_hold))
        (gets-Keeps (get_signatory_ids s.id) _ λ signatories.
          if-Keeps (is_multisig s.withdrawal_auth_mode) _ _
            (raise_if-Keeps (ltb (length signatories) required_signatories)
              (app_error 409 Code.signatories_incomplete))
            (bind-Keeps _ _ (or_raise-Keeps pin (app_error 400 Code.validation_error))
              λ quoted. check_pin-IsSafe s quoted))

authorise_scope-IsSafe :
    (due : Option ℕ) (space user : ℕ) (role : RepRole)
    → IsSafe (authorise_scope due space user role)
unfolding authorise_scope
authorise_scope-IsSafe none space user role =
    then-Keeps _ _ (raise_if-Keeps (not (is_lead role)) (app_error 403 Code.due_required))
      (pure-Keeps none)
authorise_scope-IsSafe (some id) space user role =
    gets-Keeps (λ (db : Db). find_by (λ (d : Due). d.id) id db.dues) _
      λ found. bind-Keeps _ _ (or_raise-Keeps found (app_error 404 Code.not_found)) λ d.
        then-Keeps _ _ (raise_if-Keeps (not (d.space_id == space)) (app_error 404 Code.not_found)) (
          then-Keeps _ _
            (raise_if-Keeps (not (is_lead role) && not (holds user d.assigned_rep_id))
              (app_error 403 Code.due_not_assigned))
            (pure-Keeps (some d.id)))

renaming-same : (m : Action Payout) (db : Db) → (renaming m db).1 ≡ (m db).1
unfolding renaming
renaming-same m db = elim (Result-cases (m db).0) [
  | inl (p, is) ↦ ground arith
  | inr (e, is) ↦ ground arith
]

renaming-IsSafe : (m : Action Payout) → IsSafe m → IsSafe (renaming m)
renaming-IsSafe m s = record { keeps = λ db c. rw (renaming-same m db) (s.keeps db c) }

fix_request-IsSafe :
    (bcrypt : Bcrypt) (now fresh : ℕ) (candidates : List ℕ) (resolve : ℕ → Result Target)
    (req : WithdrawalRequest) (partner : Option (ℕ × ℕ)) (space : Space) (user : User)
    (rep : SpaceRep) (due : Option ℕ)
    → IsSafe (fix_request bcrypt now fresh candidates resolve req partner space user rep due)
unfolding fix_request
fix_request-IsSafe bcrypt now fresh candidates resolve req partner space user rep due =
    then-Keeps _ _ (raise_if-Keeps space.payouts_frozen (app_error 423 Code.payouts_frozen)) (
      then-Keeps _ _ (verify_authorisation-IsSafe bcrypt now space req.pin) (
        then-Keeps _ _
          (raise_if-Keeps (not (is_verified user.kyc_status)) (app_error 403 Code.kyc_not_verified))
          (gets-Keeps (lead_user req.space_id) _ λ lead.
            then-Keeps _ _
              (raise_if-Keeps (not (can_pay_out lead)) (
                app_error 403
                  (if is_lead rep.role then Code.kyc_not_verified else Code.lead_kyc_not_verified)))
              (bind-Keeps _ _ (or_raise-Keeps lead plain_error) λ payer.
                bind-Keeps _ _ (or_raise-Keeps payer.bachs_account_id plain_error) λ account.
                  bind-Keeps _ _ (lift-Keeps (resolve account)) λ target.
                    gets-Keeps (unique_payout_reference candidates) _ λ named.
                      bind-Keeps _ _ (lift-Keeps named) λ reference. pure-Keeps (
                        payout_request bcrypt now fresh candidates req partner space due target
                          account reference)))))

check_request-IsSafe :
    (bcrypt : Bcrypt) (now fresh : ℕ) (candidates : List ℕ) (resolve : ℕ → Result Target)
    (req : WithdrawalRequest)
    → IsSafe (check_request bcrypt now fresh candidates resolve req)
unfolding check_request
check_request-IsSafe bcrypt now fresh candidates resolve req =
    then-Keeps _ _
      (raise_if-Keeps (out_of_range req.amount_kobo) (app_error 422 Code.below_min_payout))
      (gets-Keeps (get_active_discount now req.space_id) _ λ partner.
        bind-Keeps _ _ (lift-Keeps (compute_withdrawal req.amount_kobo (discount_percent partner)))
          λ breakdown.
            gets-Keeps (λ (db : Db). find_space req.space_id db.spaces) _
              λ found_space.
                bind-Keeps _ _ (or_raise-Keeps found_space (app_error 404 Code.not_found)) λ space.
                  gets-Keeps (λ (db : Db). find_user req.user_id db.users) _
                    λ found_user.
                      bind-Keeps _ _ (or_raise-Keeps found_user (app_error 404 Code.not_found))
                        λ user.
                          gets-Keeps
                            (λ (db : Db).
                              find?
                                (λ (r : SpaceRep).
                                  r.user_id == req.user_id && (r.space_id == req.space_id))
                                db.reps)
                            _
                            λ found_rep.
                              bind-Keeps _ _
                                (or_raise-Keeps found_rep (app_error 403 Code.forbidden))
                                λ rep.
                                  then-Keeps _ _
                                    (raise_if-Keeps (user.is_suspended || user.is_deactivated)
                                      (app_error 403 Code.account_suspended))
                                    (bind-Keeps _ _
                                      (authorise_scope-IsSafe req.due_id req.space_id req.user_id
                                        rep.role)
                                      λ due.
                                        fix_request-IsSafe bcrypt now fresh candidates resolve req
                                          partner space user rep due))

request_withdrawal-IsSafe :
    (bcrypt : Bcrypt) (now fresh : ℕ) (candidates : List ℕ) (provider : PayoutProvider)
    (resolve : ℕ → Result Target) (req : WithdrawalRequest)
    → IsSafe (request_withdrawal bcrypt now fresh candidates provider resolve req)
unfolding request_withdrawal
request_withdrawal-IsSafe bcrypt now fresh candidates provider resolve req =
    bind-Keeps _ _ (check_request-IsSafe bcrypt now fresh candidates resolve req) λ r.
      bind-Keeps _ _
        (renaming-IsSafe (withdraw_tx r) (record { keeps = withdraw_tx-IsConsistent r }))
        λ payout.
          then-Keeps _ _
            (when-Keeps (is_payout payout.status PayoutStatus.pending) _
              (dispatch_payout-IsSafe provider now payout.id))
            (gets-Keeps (λ (db : Db). find_payout payout.id db.payouts) _
              λ after. or_raise-Keeps after plain_error)

-- A request for a withdrawal, on every path (each guard, a wrong code, a race for the one payout in
-- flight, each answer of the provider or none), leaves consistent payouts and ledger consistent.
pub request_withdrawal-IsConsistent :
    (bcrypt : Bcrypt) (now fresh : ℕ) (candidates : List ℕ) (provider : PayoutProvider)
    (resolve : ℕ → Result Target) (req : WithdrawalRequest) (db : Db)
    → IsConsistent db.payouts db.ledger
    → let after = (request_withdrawal bcrypt now fresh candidates provider resolve req db).1 in
      IsConsistent after.payouts after.ledger
request_withdrawal-IsConsistent bcrypt now fresh candidates provider resolve req db c =
    (request_withdrawal-IsSafe bcrypt now fresh candidates provider resolve req).keeps db c
