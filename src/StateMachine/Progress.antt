-- ===== src/StateMachine/Progress.antt =====
-- Histories of legal transitions in the graphs of src/lib/stateMachine.ts.
use duevy_be.Base.{ℕ, suc, ◌+◌, ◌≤◌, ◌<◌, ◌≡◌, ◌≢◌, ◌⊎◌, refl, true, false, arith}
use duevy_be.StateMachine.{
  CheckoutStatus, PayoutStatus, can_transition_checkout, can_transition_payout, payout_active,
}

-- How far along a status is.
abbrev checkout_rank : CheckoutStatus → ℕ
checkout_rank CheckoutStatus.pending = 0
checkout_rank CheckoutStatus.expired = 1
checkout_rank CheckoutStatus.underpaid = 1
checkout_rank CheckoutStatus.paid = 2

abbrev pub payout_rank : PayoutStatus → ℕ
payout_rank PayoutStatus.awaiting_approval = 0
payout_rank PayoutStatus.pending = 1
payout_rank PayoutStatus.processing = 2
payout_rank PayoutStatus.success = 3
payout_rank PayoutStatus.failed = 4
payout_rank PayoutStatus.reversed = 4
payout_rank PayoutStatus.cancelled = 4

checkout_forward :
    (s t : CheckoutStatus) → can_transition_checkout s t ≡ true → checkout_rank s < checkout_rank t
unfolding can_transition_checkout
checkout_forward s t h = ground arith

pub payout_forward :
    (s t : PayoutStatus) → can_transition_payout s t ≡ true → payout_rank s < payout_rank t
unfolding can_transition_payout
payout_forward s t h = ground arith

-- A history of legal payout transitions, from the first status to the last.
pub data PayoutHistory : PayoutStatus → PayoutStatus → ℕ → Type 0 where
  start : {s : PayoutStatus} → PayoutHistory s s 0
  move :
      {s t u : PayoutStatus} {n : ℕ}
      → PayoutHistory s t n
      → can_transition_payout t u ≡ true
      → PayoutHistory s u (suc n)

pub data CheckoutHistory : CheckoutStatus → CheckoutStatus → ℕ → Type 0 where
  start : {s : CheckoutStatus} → CheckoutHistory s s 0
  move :
      {s t u : CheckoutStatus} {n : ℕ}
      → CheckoutHistory s t n
      → can_transition_checkout t u ≡ true
      → CheckoutHistory s u (suc n)

PayoutHistory-rank :
    {s t : PayoutStatus} {n : ℕ} → PayoutHistory s t n → payout_rank s + n ≤ payout_rank t
PayoutHistory-rank PayoutHistory.start = omega arith
PayoutHistory-rank (PayoutHistory.move {t = t} {u = u} h c) =
    omega (arith, PayoutHistory-rank h, payout_forward t u c)

CheckoutHistory-rank :
    {s t : CheckoutStatus} {n : ℕ} → CheckoutHistory s t n → checkout_rank s + n ≤ checkout_rank t
CheckoutHistory-rank CheckoutHistory.start = omega arith
CheckoutHistory-rank (CheckoutHistory.move {t = t} {u = u} h c) =
    omega (arith, CheckoutHistory-rank h, checkout_forward t u c)

-- A history of legal payout transitions has at most four of them, and one that is not empty ends in
-- another status than it starts from.
pub payout_never_back :
    {s t : PayoutStatus} {n : ℕ} → PayoutHistory s t n → (n ≤ 4) × ((n ≡ 0) ⊎ (s ≢ t))
payout_never_back {s} {t} h =
    (ground (arith, PayoutHistory-rank h), ground (arith, PayoutHistory-rank h))

-- A history of legal checkout transitions has at most two of them, one that is not empty ends in
-- another status than it starts from, and one from `paid` is at `paid`.
pub checkout_never_back :
    {s t : CheckoutStatus} {n : ℕ}
    → CheckoutHistory s t n
    → (n ≤ 2) × ((n ≡ 0) ⊎ (s ≢ t)) × ((s ≢ CheckoutStatus.paid) ⊎ (t ≡ CheckoutStatus.paid))
checkout_never_back {s} {t} h = (
  ground (arith, CheckoutHistory-rank h),
  ground (arith, CheckoutHistory-rank h),
  ground (arith, CheckoutHistory-rank h),
)

-- A withdrawal that is not active is `success` (which can still be reversed) or final, and one that
-- is active can always move.
pub payout_active_or_closed :
    (s t : PayoutStatus)
    → (payout_active s ≡ false
        → can_transition_payout s t ≡ true
        → (s ≡ PayoutStatus.success) × (t ≡ PayoutStatus.reversed))
      × (payout_active s ≡ true → (u : PayoutStatus) × (can_transition_payout s u ≡ true))
unfolding payout_active can_transition_payout
payout_active_or_closed s t = (ground arith, next s)
  where
    next :
        (r : PayoutStatus)
        → payout_active r ≡ true
        → (u : PayoutStatus) × (can_transition_payout r u ≡ true)
    next PayoutStatus.awaiting_approval h = (PayoutStatus.pending, refl)
    next PayoutStatus.pending h = (PayoutStatus.failed, refl)
    next PayoutStatus.processing h = (PayoutStatus.success, refl)
    next PayoutStatus.success h = cc
    next PayoutStatus.failed h = cc
    next PayoutStatus.reversed h = cc
    next PayoutStatus.cancelled h = cc
