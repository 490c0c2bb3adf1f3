-- ===== src/Webhooks/Process.antt =====
-- `processEvent` of src/services/webhookProcessor.service.ts. `refreshIdentity` asks the provider for
-- a rep's identity and is an argument; the ids that the database draws are arguments too.
use duevy_be.Base.{ℕ, Option, none, some}
use duevy_be.Base.Results.{plain_error}
use duevy_be.Store.Action.{Action, pure, gets, lift, or_raise, ◌>>=◌}
use duevy_be.Withdrawal.Dispatch.{PayoutProvider, complete_payout, fail_payout_by_reference}
use duevy_be.Checkout.Outcomes.{find_checkout_id, fulfil_checkout, mark_underpaid, expire_checkout}

-- `ProviderEvent`, with what the handlers read of each kind.
pub data ProviderEvent : Type 0 where
  payment_succeeded : Option ℕ → Option ℕ → ℕ → ℕ → Option ℕ → ProviderEvent
  payment_underpaid : Option ℕ → Option ℕ → ℕ → ℕ → ProviderEvent
  payment_expired : Option ℕ → Option ℕ → ProviderEvent
  payment_failed : Option ℕ → Option ℕ → ℕ → ProviderEvent
  payout_succeeded : Option ℕ → Option ℕ → ProviderEvent
  payout_failed : Option ℕ → ProviderEvent
  identity_updated : ℕ → ProviderEvent
  ignored : ProviderEvent

module _ (payment_id : ℕ → ℕ) (receipt_number now : ℕ) (provider : PayoutProvider)
    (refresh_identity : ℕ → Action (Unit {0})) where
  unfoldable pub process_event : ProviderEvent → Action (Unit {0})
  process_event (payment_succeeded reference provider_id received overpaid charge) = do
    found ← gets (find_checkout_id reference provider_id)
    id ← lift found
    outcome ← fulfil_checkout payment_id receipt_number id received overpaid charge
    pure tt
  process_event (payment_underpaid reference provider_id received expected) = do
    found ← gets (find_checkout_id reference provider_id)
    id ← lift found
    marked ← mark_underpaid id received expected
    pure tt
  process_event (payment_expired reference provider_id) = do
    found ← gets (find_checkout_id reference provider_id)
    id ← lift found
    closed ← expire_checkout id none
    pure tt
  process_event (payment_failed reference provider_id reason) = do
    found ← gets (find_checkout_id reference provider_id)
    id ← lift found
    closed ← expire_checkout id (some reason)
    pure tt
  process_event (payout_succeeded reference fee) = do
    named ← or_raise reference plain_error
    applied ← complete_payout provider now named fee
    pure tt
  process_event (payout_failed reference) = do
    named ← or_raise reference plain_error
    applied ← fail_payout_by_reference provider now named
    pure tt
  process_event (identity_updated account) = refresh_identity account
  process_event ignored = pure tt
