-- ===== src/StateMachine.antt =====
-- src/lib/stateMachine.ts: the legal status transitions of checkouts and payouts.
pub mod Progress
use duevy_be.Base.{ℕ, Bool, true, false, List, [], ◌∷◌, ◌==◌, if◌then◌else◌}
use duevy_be.Base.Results.{Result, illegal_transition, guard}

pub data CheckoutStatus : Type 0 where
  pending paid expired underpaid : CheckoutStatus

pub data PayoutStatus : Type 0 where
  awaiting_approval pending processing success failed reversed cancelled : PayoutStatus

-- A number for each status, by which two are compared.
abbrev checkout_tag : CheckoutStatus → ℕ
checkout_tag CheckoutStatus.pending = 0
checkout_tag CheckoutStatus.paid = 1
checkout_tag CheckoutStatus.expired = 2
checkout_tag CheckoutStatus.underpaid = 3

abbrev payout_tag : PayoutStatus → ℕ
payout_tag PayoutStatus.awaiting_approval = 0
payout_tag PayoutStatus.pending = 1
payout_tag PayoutStatus.processing = 2
payout_tag PayoutStatus.success = 3
payout_tag PayoutStatus.failed = 4
payout_tag PayoutStatus.reversed = 5
payout_tag PayoutStatus.cancelled = 6

-- `===` on statuses.
abbrev pub is_checkout : CheckoutStatus → CheckoutStatus → Bool
is_checkout a b = checkout_tag a == checkout_tag b

abbrev pub is_payout : PayoutStatus → PayoutStatus → Bool
is_payout a b = payout_tag a == payout_tag b

-- `CHECKOUT_TRANSITIONS`
abbrev pub checkout_transitions : CheckoutStatus → List CheckoutStatus
checkout_transitions CheckoutStatus.pending =
    CheckoutStatus.paid ∷ CheckoutStatus.expired ∷ CheckoutStatus.underpaid ∷ []
checkout_transitions CheckoutStatus.expired = CheckoutStatus.paid ∷ []
checkout_transitions CheckoutStatus.underpaid = CheckoutStatus.paid ∷ []
checkout_transitions CheckoutStatus.paid = []

-- `PAYOUT_TRANSITIONS`
abbrev pub payout_transitions : PayoutStatus → List PayoutStatus
payout_transitions PayoutStatus.awaiting_approval =
    PayoutStatus.pending ∷ PayoutStatus.cancelled ∷ []
payout_transitions PayoutStatus.pending = PayoutStatus.processing ∷ PayoutStatus.failed ∷ []
payout_transitions PayoutStatus.processing =
    PayoutStatus.success ∷ PayoutStatus.failed ∷ PayoutStatus.reversed ∷ []
payout_transitions PayoutStatus.success = PayoutStatus.reversed ∷ []
payout_transitions PayoutStatus.failed = []
payout_transitions PayoutStatus.reversed = []
payout_transitions PayoutStatus.cancelled = []

-- `can`: `graph[from]?.includes(to)`, over an equality of statuses.
abbrev includes : {S : Type 0} → (S → S → Bool) → List S → S → Bool
includes same [] to = false
includes same (s ∷ ss) to = let rest = includes same ss to in if same s to then true else rest

unfoldable pub can_transition_checkout : CheckoutStatus → CheckoutStatus → Bool
can_transition_checkout from to = includes is_checkout (checkout_transitions from) to

unfoldable pub can_transition_payout : PayoutStatus → PayoutStatus → Bool
can_transition_payout from to = includes is_payout (payout_transitions from) to

unfoldable pub assert_checkout_transition : CheckoutStatus → CheckoutStatus → Result (Unit {0})
unfolding can_transition_checkout
assert_checkout_transition from to = guard (can_transition_checkout from to) illegal_transition

unfoldable pub assert_payout_transition : PayoutStatus → PayoutStatus → Result (Unit {0})
unfolding can_transition_payout
assert_payout_transition from to = guard (can_transition_payout from to) illegal_transition

-- `PAYOUT_ACTIVE`, as the test for membership.
unfoldable pub payout_active : PayoutStatus → Bool
payout_active s =
    includes is_payout
      (PayoutStatus.awaiting_approval ∷ PayoutStatus.pending ∷ PayoutStatus.processing ∷ []) s
