-- ===== src/Reconciliation.antt =====
-- src/jobs/reconciliation.ts: asking the provider about checkouts and withdrawals that have gone
-- quiet. What the provider answers is an argument; so are the columns that only this job reads: which
-- rows belong to the provider, and when a payout was requested and accepted.
pub mod Sweep
use duevy_be.Base.{
  ℕ, ◌+◌, Bool, true, false, ◌&&◌, leb, ltb, not, keep, take, if◌then◌else◌, Option, none, some,
  get_or, List, [], ◌∷◌,
}
use duevy_be.Base.Results.{plain_error, provider_refused, provider_unavailable}
use duevy_be.StateMachine.{CheckoutStatus, PayoutStatus, is_checkout, is_payout}
use duevy_be.Store.{Db, Checkout, Payout}
use duevy_be.Store.Action.{Action, pure, raise, gets, ◌>>=◌, ◌>>◌, when, ignore_errors}
use duevy_be.Withdrawal.Payouts.{taken}
use duevy_be.Withdrawal.Dispatch.{
  PayoutProvider, Reply, reply, refused, unavailable, dispatch_payout, refresh_payout,
  settle_withdrawal_fee,
}
use duevy_be.Approval.{expire_stale_approvals}
use duevy_be.Checkout.Outcomes.{fulfil_checkout, mark_underpaid, expire_checkout}
use duevy_be.Idempotency.{IdempotencyKey}

abbrev pub check_pending_after_ms : ℕ
check_pending_after_ms = 120000

abbrev pub expiry_grace_ms : ℕ
expiry_grace_ms = 300000

abbrev pub retry_dispatch_after_ms : ℕ
retry_dispatch_after_ms = 120000

abbrev pub check_processing_after_ms : ℕ
check_processing_after_ms = 900000

pub data CollectionState : Type 0 where
  pending paid underpaid expired failed : CollectionState

pub record CollectionStatus : Type 0 where
  pub state : CollectionState
  pub received_kobo : Option ℕ

-- What is drawn and asked while checkouts are reconciled: ids of payments and receipts, the text of
-- the reason for closing, and the provider's answers.
pub record CheckoutCalls : Type 0 where
  pub payment_id : ℕ → ℕ
  pub receipt_number : ℕ
  pub not_opened : ℕ
  pub get_collection_status : ℕ → Reply CollectionStatus

abbrev pub past_expiry : ℕ → Checkout → Bool
past_expiry now c = ltb (c.expires_at + expiry_grace_ms) now

-- The answer of an outcome is not used.
abbrev pub settled : {A : Type 0} → Action A → Action (Unit {0})
settled m = m >>= λ _. pure tt

module _ (calls : CheckoutCalls) (now : ℕ) where
  -- An amount that is not known is never taken for the total.
  unfoldable pub apply_status : Bool → Checkout → CollectionStatus → Action (Unit {0})
  apply_status expire_if_past_due c status = elim status.state [
    | CollectionState.paid ↦ elim status.received_kobo [
      | none ↦ pure tt
      | some received ↦
          settled (fulfil_checkout calls.payment_id calls.receipt_number c.id received 0 none)
    ]
    | CollectionState.underpaid ↦
        settled (mark_underpaid c.id (get_or status.received_kobo 0) c.total_kobo)
    | CollectionState.expired ↦ settled (expire_checkout c.id none)
    | CollectionState.failed ↦ settled (expire_checkout c.id none)
    | CollectionState.pending ↦
        when (expire_if_past_due && past_expiry now c) (settled (expire_checkout c.id none))
  ]

  unfoldable pub reconcile_checkout : Bool → Checkout → Action (Unit {0})
  unfolding apply_status
  reconcile_checkout expire_if_past_due c =
      if not (is_checkout c.status CheckoutStatus.pending)
      then pure tt
      else (elim c.provider_checkout_id [
        | none ↦
            when (expire_if_past_due && past_expiry now c)
              (settled (expire_checkout c.id (some calls.not_opened)))
        | some id ↦ elim (calls.get_collection_status id) [
          | reply status ↦ apply_status expire_if_past_due c status
          | refused ↦ raise provider_refused
          | unavailable ↦ raise provider_unavailable
        ]
      ])

-- One after the other; an error is logged and the next one is tried.
unfoldable pub each_caught : {A : Type 0} → (A → Action (Unit {0})) → List A → Action (Unit {0})
each_caught f [] = pure tt
each_caught f (a ∷ rest) = ignore_errors (f a) >> each_caught f rest

-- The oldest first: the table has the newest first.
unfoldable pub reversed : {A : Type 0} → List A → List A → List A
reversed done [] = done
reversed done (x ∷ xs) = reversed (x ∷ done) xs

unfoldable pub quiet_checkouts : (ℕ → Bool) → ℕ → Db → List Checkout
quiet_checkouts ours now db = take 50 (
    reversed [] (
      keep
        (λ (c : Checkout).
          ours c.id
          && (is_checkout c.status CheckoutStatus.pending
              && leb (c.created_at + check_pending_after_ms) now))
        db.checkouts))

unfoldable pub reconcile_checkouts : CheckoutCalls → (ℕ → Bool) → ℕ → Action (Unit {0})
unfolding reconcile_checkout
reconcile_checkouts calls ours now = do
  quiet ← gets (quiet_checkouts ours now)
  each_caught (reconcile_checkout calls now true) quiet

-- Columns of payouts that only this job reads.
pub record PayoutTimes : Type 0 where
  pub ours : ℕ → Bool
  pub requested_at : ℕ → ℕ
  pub processing_at : ℕ → Option ℕ

abbrev waited : ℕ → ℕ → Option ℕ → Bool
waited now pause none = false
waited now pause (some t) = leb (t + pause) now

module _ (times : PayoutTimes) (now : ℕ) where
  unfoldable pub undispatched : Db → List Payout
  undispatched db = take 25 (
      keep
        (λ (p : Payout).
          times.ours p.id
          && (is_payout p.status PayoutStatus.pending
              && leb (times.requested_at p.id + retry_dispatch_after_ms) now))
        db.payouts)

  unfoldable pub quiet_processing : Db → List Payout
  quiet_processing db = take 25 (
      keep
        (λ (p : Payout).
          times.ours p.id
          && (is_payout p.status PayoutStatus.processing
              && waited now check_processing_after_ms (times.processing_at p.id)))
        db.payouts)

  unfoldable pub unsettled : Db → List Payout
  unsettled db = take 25 (
      keep
        (λ (p : Payout).
          times.ours p.id
          && (is_payout p.status PayoutStatus.success && not (taken p.fee_settled_at)))
        db.payouts)

  unfoldable pub reconcile_payouts : PayoutProvider → Action (Unit {0})
  reconcile_payouts provider = do
    first ← gets undispatched
    each_caught (λ (p : Payout). dispatch_payout provider now p.id) first
    second ← gets quiet_processing
    each_caught (λ (p : Payout). refresh_payout provider now p.id) second
    third ← gets unsettled
    each_caught (λ (p : Payout). settle_withdrawal_fee provider now p.id) third
    expire_stale_approvals now

-- One sweep; each part runs whatever became of the one before.
unfoldable pub run_reconciliation_once :
    CheckoutCalls → (ℕ → Bool) → PayoutTimes → PayoutProvider → ℕ → Action (Unit {0})
unfolding reconcile_checkouts reconcile_payouts
run_reconciliation_once calls ours times provider now =
    ignore_errors (reconcile_checkouts calls ours now)
    >> ignore_errors (reconcile_payouts times now provider)

-- `idempotencyKey.deleteMany({ where: { expiresAt: { lt: now } } })`
unfoldable pub purge_expired_idempotency_keys : ℕ → List IdempotencyKey → List IdempotencyKey
purge_expired_idempotency_keys now = keep (λ (k : IdempotencyKey). not (ltb k.expires_at now))
