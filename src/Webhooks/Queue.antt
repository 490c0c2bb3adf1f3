-- ===== src/Webhooks/Queue.antt =====
-- The queue of src/jobs/webhookWorker.ts over the table `webhook_events`, and `enqueueEvent` of
-- src/services/webhookProcessor.service.ts.
use duevy_be.Base.{
  ℕ, zero, suc, ◌+◌, ◌-◌, ◌*◌, ◌^◌, min, Bool, true, false, ◌&&◌, ◌==◌, leb, ltb, find?, keep, map,
  take, mem?, length, if◌then◌else◌, Option, none, some, List, [], ◌∷◌,
}
use duevy_be.Base.Results.{Result, ok, err}
use duevy_be.Store.{Db}
use duevy_be.Store.Action.{Action}
use duevy_be.Withdrawal.Payouts.{taken}
use duevy_be.Checkout.Outcomes.{is_empty}
use duevy_be.Webhooks.Process.{ProviderEvent, ignored}

pub data WebhookStatus : Type 0 where
  received processing processed failed dead : WebhookStatus

pub record WebhookEvent : Type 0 where
  pub id : ℕ
  pub provider : ℕ
  pub provider_event_id : ℕ
  pub event : ProviderEvent
  pub status : WebhookStatus
  pub attempts : ℕ
  pub next_attempt_at : ℕ
  pub locked_at : Option ℕ
  pub received_at : ℕ

abbrev pub max_attempts : ℕ
max_attempts = 8

abbrev pub batch : ℕ
batch = 10

abbrev pub stale_lock_ms : ℕ
stale_lock_ms = 300000

-- 10 seconds doubled for each attempt after the first, up to an hour.
unfoldable pub backoff_ms : ℕ → ℕ
backoff_ms attempt = min (10000 * 2 ^ (attempt - 1)) 3600000

abbrev pub is_ignored : ProviderEvent → Bool
is_ignored ignored = true
is_ignored _ = false

abbrev pub same_event : ℕ → ℕ → WebhookEvent → Bool
same_event provider event_id r = r.provider == provider && (r.provider_event_id == event_id)

-- `ON CONFLICT ("provider", "providerEventId") DO NOTHING`: the answer says whether it was queued.
unfoldable pub enqueue_event :
    ℕ → ℕ → ℕ → ℕ → ProviderEvent → List WebhookEvent → Bool × List WebhookEvent
enqueue_event now id provider event_id event rows =
    if taken (find? (same_event provider event_id) rows) then (false, rows) else (
      true,
      record {
        id = id;
        provider = provider;
        provider_event_id = event_id;
        event = event;
        status = if is_ignored event then WebhookStatus.processed else WebhookStatus.received;
        attempts = 0;
        next_attempt_at = now;
        locked_at = none;
        received_at = now;
      }
          ∷ rows,
    )

-- A lock older than five minutes belongs to a worker that died.
abbrev pub is_stale : ℕ → Option ℕ → Bool
is_stale now none = false
is_stale now (some t) = ltb (t + stale_lock_ms) now

unfoldable pub is_due : ℕ → WebhookEvent → Bool
is_due now r = elim r.status [
  | WebhookStatus.received ↦ leb r.next_attempt_at now
  | WebhookStatus.failed ↦ leb r.next_attempt_at now
  | WebhookStatus.processing ↦ is_stale now r.locked_at
  | WebhookStatus.processed ↦ false
  | WebhookStatus.dead ↦ false
]

-- `ORDER BY "receivedAt"`
unfoldable pub insert_event : WebhookEvent → List WebhookEvent → List WebhookEvent
insert_event e [] = e ∷ []
insert_event e (f ∷ fs) =
    let rest = insert_event e fs in if leb e.received_at f.received_at then e ∷ f ∷ fs else f ∷ rest

unfoldable pub sort_events : List WebhookEvent → List WebhookEvent
sort_events [] = []
sort_events (e ∷ es) = insert_event e (sort_events es)

abbrev pub event_id : WebhookEvent → ℕ
event_id r = r.id

-- The inner SELECT.
unfoldable pub due_ids : ℕ → List WebhookEvent → List ℕ
due_ids now rows = map event_id (take batch (sort_events (keep (is_due now) rows)))

abbrev pub claimed_row : ℕ → WebhookEvent → WebhookEvent
claimed_row now r = record r {
  status = WebhookStatus.processing;
  locked_at = some now;
  attempts = r.attempts + 1;
}

abbrev pub claim_row : ℕ → List ℕ → WebhookEvent → WebhookEvent
claim_row now ids r = if mem? r.id ids then claimed_row now r else r

-- The rows that are claimed, as they are after it, and the table.
unfoldable pub claim_batch : ℕ → List WebhookEvent → List WebhookEvent × List WebhookEvent
claim_batch now rows =
    let ids = due_ids now rows in
    let after = map (claim_row now ids) rows in
    (keep (λ (r : WebhookEvent). mem? r.id ids) after, after)

-- What `runOne` writes: processed, or a failure with its next attempt, or dead after the last one.
unfoldable pub finished_row : ℕ → ℕ → Bool → WebhookEvent → WebhookEvent
unfolding backoff_ms
finished_row now attempts true r = record r { status = WebhookStatus.processed; locked_at = none }
finished_row now attempts false r = record r {
  status = if leb max_attempts attempts then WebhookStatus.dead else WebhookStatus.failed;
  locked_at = none;
  next_attempt_at = now + backoff_ms attempts;
}

abbrev pub update_event : ℕ → (WebhookEvent → WebhookEvent) → WebhookEvent → WebhookEvent
update_event id f r = if r.id == id then f r else r

abbrev pub succeeded : Result (Unit {0}) → Bool
succeeded (ok _) = true
succeeded (err _) = false

module _ (handle : ProviderEvent → Action (Unit {0})) (now : ℕ) where
  unfoldable pub run_one : WebhookEvent → List WebhookEvent × Db → List WebhookEvent × Db
  unfolding finished_row
  run_one r (rows, db) =
      let (answer, db') = handle r.event db in
      (map (update_event r.id (finished_row now r.attempts (succeeded answer))) rows, db')

  unfoldable pub run_all : List WebhookEvent → List WebhookEvent × Db → List WebhookEvent × Db
  run_all [] s = s
  run_all (r ∷ rs) s = run_all rs (run_one r s)

  -- `for (let i = 0; i < maxBatches; i++)`, ended by an empty batch: how many were handled.
  unfoldable pub drain : ℕ → List WebhookEvent × Db → ℕ × (List WebhookEvent × Db)
  drain zero s = (0, s)
  drain (suc n) (rows, db) =
      let (claimed, after) = claim_batch now rows in
      let s = run_all claimed (after, db) in
      let (handled, last) = drain n s in
      if is_empty claimed then (0, (after, db)) else (length claimed + handled, last)
