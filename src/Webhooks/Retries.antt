-- ===== src/Webhooks/Retries.antt =====
-- Failed handlers and the pauses before the next attempt (src/jobs/webhookWorker.ts).
use duevy_be.Base.{
  ℕ, zero, suc, ◌+◌, ◌-◌, ◌*◌, ◌^◌, ◌≤◌, ◌<◌, ◌≡◌, ◌⊎◌, false, leb, Bool-cases, inl, inr, arith,
}
use duevy_be.Webhooks.Queue.{
  WebhookEvent, WebhookStatus, backoff_ms, is_due, finished_row, max_attempts,
}

pow_pos : (n : ℕ) → 1 ≤ 2 ^ n
pow_pos zero = omega arith
pow_pos (suc n) = omega (arith, pow_pos n)

pow_step : (n : ℕ) → 2 ^ (suc n + 1 - 1) ≡ 2 * 2 ^ (suc n - 1)
pow_step n =
    let a : suc n + 1 - 1 ≡ suc n = omega arith in
    let b : suc n - 1 ≡ n = omega arith in rw (a, b) (omega arith)

-- The pause before the next attempt is between ten seconds and an hour, and never shorter than the
-- one before.
pub backoff_ms-bounds :
    (attempt : ℕ)
    → (10000 ≤ backoff_ms attempt)
      × (backoff_ms attempt ≤ 3600000)
      × (backoff_ms attempt ≤ backoff_ms (attempt + 1))
unfolding backoff_ms
backoff_ms-bounds zero = (ground arith, ground arith, ground arith)
backoff_ms-bounds (suc n) =
    let p = pow_pos (suc n - 1) in (omega (arith, p), omega arith, omega (arith, p, pow_step n))

-- A handler that fails for the eighth time or later leaves its event dead, which is never due. Before
-- that it leaves the event failed, and due again from the end of a pause on, which is ten seconds at
-- least and an hour at most.
pub finished_row-due :
    (now later attempts : ℕ) (r : WebhookEvent)
    → let after = finished_row now attempts false r in
      ((8 ≤ attempts) × (after.status ≡ WebhookStatus.dead) × (is_due later after ≡ false))
      ⊎ ((attempts < 8)
          × (after.status ≡ WebhookStatus.failed)
          × ((pause : ℕ) × (10000 ≤ pause)
              × (pause ≤ 3600000)
              × (is_due later after ≡ leb (now + pause) later)))
unfolding finished_row is_due
finished_row-due now later attempts r = elim (Bool-cases (leb max_attempts attempts)) [
  | inl last ↦ inl (ground arith, ground arith, ground arith)
  | inr again ↦
      let (least, most, _) = backoff_ms-bounds attempts in
      inr (ground arith, ground arith, (backoff_ms attempts, least, most, ground arith))
]
