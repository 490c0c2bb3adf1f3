-- ===== src/Withdrawal/Pin.antt =====
-- The withdrawal code of a space, and what a withdrawal needs before it is created:
-- `isWeakPin`, `checkPin`, `verifyAuthorisation`, `authoriseScope` and `setWithdrawalPinByRep` of
-- src/services/withdrawal.service.ts. A code is the list of its digits; bcrypt is given its number.
use duevy_be.Base.{
  ℕ, ◌+◌, Bool, false, ◌&&◌, ◌||◌, ◌==◌, ltb, leb, not, holds, length, if◌then◌else◌, Option, none,
  some, List, [], ◌∷◌,
}
use duevy_be.Base.Results.{app_error, Code, plain_error}
use duevy_be.Base.Table.{find_by}
use duevy_be.Bcrypt.{Bcrypt}
use duevy_be.Store.{Space, Due, RepRole}
use duevy_be.Store.Action.{Action, pure, raise, gets, or_raise, ◌>>=◌, ◌>>◌, raise_if, modify, when}
use duevy_be.Signatory.{
  find_space, update_space, get_signatory_ids, required_signatories, is_multisig, is_ahead,
  if_ahead, assert_password,
}
use duevy_be.Withdrawal.Payouts.{is_lead, taken}

abbrev pub pin_max_attempts : ℕ
pin_max_attempts = 5

-- 30 minutes and 24 hours, in milliseconds.
abbrev pub pin_lock_ms : ℕ
pin_lock_ms = 1800000

abbrev pub pin_reset_hold_ms : ℕ
pin_reset_hold_ms = 86400000

abbrev pub approval_window_ms : ℕ
approval_window_ms = 86400000

-- `/^(\d)\1{3}$/`
unfoldable pub is_repeated : List ℕ → Bool
is_repeated (a ∷ b ∷ c ∷ d ∷ []) = a == b && (b == c && c == d)
is_repeated _ = false

-- `SEQUENTIAL_PINS`: four digits, each one above or each one below the one before.
unfoldable pub is_run_up : List ℕ → Bool
is_run_up (a ∷ b ∷ c ∷ d ∷ []) = a + 1 == b && (b + 1 == c && (c + 1 == d && leb d 9))
is_run_up _ = false

unfoldable pub is_run_down : List ℕ → Bool
is_run_down (a ∷ b ∷ c ∷ d ∷ []) = b + 1 == a && (c + 1 == b && (d + 1 == c && leb a 9))
is_run_down _ = false

unfoldable pub is_weak_pin : List ℕ → Bool
unfolding is_repeated is_run_up is_run_down
is_weak_pin pin = is_repeated pin || is_run_up pin || is_run_down pin

abbrev pub set_failed : ℕ → Option ℕ → Space → Space
set_failed attempts until s = record s {
  withdrawal_pin_failed_attempts = attempts;
  withdrawal_pin_locked_until = until;
}

-- `withdrawalPinFailedAttempts: { increment: 1 }`
abbrev pub count_failure : Space → Space
count_failure s = record s { withdrawal_pin_failed_attempts = s.withdrawal_pin_failed_attempts + 1 }

-- What `CLEARED_PIN` writes when a space changes its lead.
abbrev pub cleared_pin : Space → Space
cleared_pin s = record s {
  withdrawal_pin_hash = none;
  withdrawal_pin_set_at = none;
  withdrawal_pin_failed_attempts = 0;
  withdrawal_pin_locked_until = none;
  withdrawal_pin_hold_until = none;
}

pub data PinChange : Type 0 where
  set changed reset : PinChange

module _ (bcrypt : Bcrypt) (now : ℕ) where
  -- The counted wrong guess: the fifth locks the code.
  unfoldable pub wrong_pin : Space → Action (Unit {0})
  wrong_pin space = do
    modify (update_space space.id count_failure)
    found ← gets (λ db. find_space space.id db.spaces)
    after ← or_raise found plain_error
    if leb pin_max_attempts after.withdrawal_pin_failed_attempts
        then (modify (update_space space.id (set_failed 0 (some (now + pin_lock_ms))))
            >> raise (app_error 423 Code.withdrawal_pin_locked))
        else raise (app_error 403 Code.invalid_withdrawal_pin)

  -- `space` is the row as it was read before.
  unfoldable pub check_pin : Space → ℕ → Action (Unit {0})
  check_pin space pin = do
    hash ← or_raise space.withdrawal_pin_hash (app_error 403 Code.withdrawal_pin_not_set)
    raise_if (is_ahead space.withdrawal_pin_locked_until now)
        (app_error 423 Code.withdrawal_pin_locked)
    if bcrypt.compare pin hash
        then when (ltb 0 space.withdrawal_pin_failed_attempts)
            (modify (update_space space.id (set_failed 0 none)))
        else wrong_pin space

  unfoldable pub verify_authorisation : Space → Option ℕ → Action (Unit {0})
  verify_authorisation space pin = do
    raise_if (is_ahead space.withdrawal_pin_hold_until now) (app_error 423 Code.withdrawal_pin_hold)
    signatories ← gets (get_signatory_ids space.id)
    if is_multisig space.withdrawal_auth_mode
        then raise_if (ltb (length signatories) required_signatories)
            (app_error 409 Code.signatories_incomplete)
        else (do
          quoted ← or_raise pin (app_error 400 Code.validation_error)
          check_pin space quoted)

  -- The change, and the end of the hold that is in force after it. `digits` is the code as typed.
  unfoldable pub set_withdrawal_pin :
      ℕ → ℕ → List ℕ → ℕ → ℕ → ℕ → Option ℕ → Bool → Action (PinChange × Option ℕ)
  set_withdrawal_pin space_id user_id digits pin salt password current forgot = do
    user ← assert_password bcrypt user_id password
    found ← gets (λ db. find_space space_id db.spaces)
    space ← or_raise found (app_error 404 Code.not_found)
    raise_if (is_weak_pin digits) (app_error 422 Code.weak_pin)
    change ← decide space
    let hold = hold_after space change
    modify (
        update_space space.id (λ s. record s {
          withdrawal_pin_hash = some (bcrypt.hash salt pin);
          withdrawal_pin_set_at = some now;
          withdrawal_pin_failed_attempts = 0;
          withdrawal_pin_locked_until = none;
          withdrawal_pin_hold_until = hold;
        }))
    pure (change, hold)
    where
      decide : Space → Action PinChange
      decide space =
          if not (taken space.withdrawal_pin_hash)
          then pure PinChange.set
          else (if forgot then pure PinChange.reset else (do
            quoted ← or_raise current (app_error 400 Code.validation_error)
            check_pin space quoted
            pure PinChange.changed))

      hold_after : Space → PinChange → Option ℕ
      hold_after space PinChange.reset = some (now + pin_reset_hold_ms)
      hold_after space PinChange.set = if_ahead space.withdrawal_pin_hold_until now
      hold_after space PinChange.changed = if_ahead space.withdrawal_pin_hold_until now

-- The lead may draw on the whole space or on any of its dues, a co-rep on a due assigned to them.
unfoldable pub authorise_scope : Option ℕ → ℕ → ℕ → RepRole → Action (Option ℕ)
authorise_scope none space_id user_id role = do
  raise_if (not (is_lead role)) (app_error 403 Code.due_required)
  pure none
authorise_scope (some due_id) space_id user_id role = do
  found ← gets (λ db. find_by (λ (d : Due). d.id) due_id db.dues)
  due ← or_raise found (app_error 404 Code.not_found)
  raise_if (not (due.space_id == space_id)) (app_error 404 Code.not_found)
  raise_if (not (is_lead role) && not (holds user_id due.assigned_rep_id))
      (app_error 403 Code.due_not_assigned)
  pure (some due.id)
