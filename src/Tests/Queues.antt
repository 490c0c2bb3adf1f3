-- ===== src/Tests/Queues.antt =====
-- Webhook events, idempotency keys, access and partners (src/jobs/webhookWorker.ts,
-- src/middleware/idempotency.ts, src/middleware/requireRole.ts).
use duevy_be.Base.{
  ℕ, ◌⊎◌, ◌≢◌, leb, Any, List, ◌+◌, ◌≤◌, ◌<◌, ◌≡◌, refl, true, false, ◌&&◌, mem?, none, some, [],
  ◌∷◌, All, arith,
}
use duevy_be.Store.{Db, SpaceRep, RepRole}
use duevy_be.Webhooks.Process.{ignored, identity_updated}
use duevy_be.Webhooks.Queue.{
  WebhookEvent, WebhookStatus, enqueue_event, is_due, due_ids, insert_event, sort_events,
  claim_batch, finished_row,
}
use duevy_be.Webhooks.Retries.{finished_row-due}
use duevy_be.Webhooks.Life.{Move, enqueue, claim, finish, run, IsQueued, enqueue_event_once}
use duevy_be.Webhooks.Exclusive.{spares, claim_batch_is_exclusive}
use duevy_be.Idempotency.{IdempotencyKey, admit_all, answer, close, open_claim, admit}
use duevy_be.Partner.{Partner}
use duevy_be.Access.{Token, Role}

abbrev row : WebhookEvent
row = record {
  id = 3;
  provider = 1;
  provider_event_id = 2;
  event = ignored;
  status = WebhookStatus.received;
  attempts = 0;
  next_attempt_at = 5;
  locked_at = none;
  received_at = 5;
}

abbrev day : List Move
day = enqueue 8 4 1 6 (identity_updated 5) ∷ claim 9 ∷ finish 10 4 1 false ∷ []

enqueue_event_once_example :
    ((Any (λ (r : WebhookEvent). (r.provider ≡ 1) × (r.provider_event_id ≡ 7)) (row ∷ [])
        × (enqueue_event 7 5 1 7 (identity_updated 5) (row ∷ []) ≡ (false, row ∷ [])))
      ⊎ (All (λ (r : WebhookEvent). (r.provider ≢ 1) ⊎ (r.provider_event_id ≢ 7)) (row ∷ [])
          × ((r : WebhookEvent) × IsQueued 7 5 1 7 (identity_updated 5) r
              × (enqueue_event 7 5 1 7 (identity_updated 5) (row ∷ []) ≡ (true, r ∷ row ∷ [])))))
    × (enqueue_event 11 6 1 7 ignored
          (run day (enqueue_event 7 5 1 7 (identity_updated 5) (row ∷ [])).1)
        ≡ (false, run day (enqueue_event 7 5 1 7 (identity_updated 5) (row ∷ [])).1))
enqueue_event_once_example =
    enqueue_event_once 7 11 5 6 1 7 (identity_updated 5) ignored (row ∷ []) day

spared_run : All (λ (m : Move). spares (due_ids 10 (row ∷ [])) 300010 m ≡ true) day
unfolding due_ids is_due insert_event sort_events
spared_run = (refl, (refl, (refl, tt)))

claim_batch_is_exclusive_example :
    mem? 3 (due_ids 10 (row ∷ []))
      && mem? 3 (due_ids 300000 (run day (claim_batch 10 (row ∷ [])).1))
    ≡ false
claim_batch_is_exclusive_example =
    claim_batch_is_exclusive 10 300000 3 (row ∷ []) day (omega arith) spared_run

finished_row-due_example :
    ((8 ≤ 8)
      × ((finished_row 10 8 false row).status ≡ WebhookStatus.dead)
      × (is_due 20010 (finished_row 10 8 false row) ≡ false))
    ⊎ ((8 < 8)
        × ((finished_row 10 8 false row).status ≡ WebhookStatus.failed)
        × ((pause : ℕ) × (10000 ≤ pause)
            × (pause ≤ 3600000)
            × (is_due 20010 (finished_row 10 8 false row) ≡ leb (10 + pause) 20010)))
finished_row-due_example = finished_row-due 10 20010 8 row

-- The same key with another fingerprint, and another key.
abbrev others : List (ℕ × ℕ × ℕ)
others = (2, 1, 3) ∷ (3, 4, 4) ∷ []

abbrev answered : List IdempotencyKey
answered =
    admit_all others
      (close (answer true 201 77 (open_claim 1, admit_all others (admit 0 1 2 []).1))).1

abbrev lead_row : SpaceRep
lead_row = record {
  user_id = 2;
  space_id = 1;
  role = RepRole.lead;
  is_signatory = false;
  added_at = 0;
}

abbrev staffed : Db
staffed = record {
  spaces = [];
  users = [];
  reps = lead_row ∷ [];
  memberships = [];
  dues = [];
  redemptions = [];
  ledger = [];
  payouts = [];
  approvals = [];
  otps = [];
  checkouts = [];
  checkout_items = [];
  due_payments = [];
  transactions = [];
  receipts = [];
}

abbrev caller : Token
caller = record { sub = 2; role = Role.rep }

abbrev sug : Partner
sug = record {
  id = 1;
  code = 44;
  is_active = true;
  expires_at = none;
  max_redemptions = some 1;
  withdrawal_fee_discount_percent = 50;
  duration_days = some 30;
}
