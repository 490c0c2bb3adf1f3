-- ===== src/Webhooks/Life.antt =====
-- The table of webhook events while requests store events, workers claim batches and handlers end
-- (src/jobs/webhookWorker.ts, src/services/webhookProcessor.service.ts), in any order.
use duevy_be.Base.{
  ℕ, ◌≡◌, ◌≢◌, ◌⊎◌, refl, Bool, true, false, ◌&&◌, ◌==◌, leb, not, find?, find?-cases, map, All,
  All-implies, Any, Any-implies, none, List, [], ◌∷◌, if◌then◌else◌, Bool-cases, inl, inr, arith,
}
use duevy_be.Withdrawal.Payouts.{taken}
use duevy_be.Webhooks.Process.{ProviderEvent}
use duevy_be.Webhooks.Queue.{
  WebhookEvent, WebhookStatus, same_event, event_id, enqueue_event, is_due, due_ids, claim_row,
  claim_batch, finished_row, update_event, is_ignored,
}

-- An event that comes in, a batch that a worker claims, or the end of a handler: with its time.
pub data Move : Type 0 where
  enqueue : (now id provider event_id : ℕ) (event : ProviderEvent) → Move
  claim : (now : ℕ) → Move
  finish : (now id attempts : ℕ) (succeeded : Bool) → Move

unfoldable pub apply : Move → List WebhookEvent → List WebhookEvent
apply (enqueue now id provider event_id event) rows =
    (enqueue_event now id provider event_id event rows).1
apply (claim now) rows = (claim_batch now rows).1
apply (finish now id attempts succeeded) rows =
    map (update_event id (finished_row now attempts succeeded)) rows

unfoldable pub run : List Move → List WebhookEvent → List WebhookEvent
run [] rows = rows
run (m ∷ ms) rows = run ms (apply m rows)

-- A table in which the event is stored.
abbrev Knows : ℕ → ℕ → List WebhookEvent → Type 0
Knows provider event_id rows = taken (find? (same_event provider event_id) rows) ≡ true

map-Knows :
    (provider event_id : ℕ) (f : WebhookEvent → WebhookEvent) (rows : List WebhookEvent)
    → ((r : WebhookEvent)
        → ((f r).provider ≡ r.provider) × ((f r).provider_event_id ≡ r.provider_event_id))
    → Knows provider event_id rows
    → Knows provider event_id (map f rows)
map-Knows provider event_id f [] keeps h = h
map-Knows provider event_id f (r ∷ rows) keeps h =
    ground (arith, keeps r, map-Knows provider event_id f rows keeps)

finished_keeps :
    (now attempts : ℕ) (succeeded : Bool) (r : WebhookEvent)
    → ((finished_row now attempts succeeded r).provider ≡ r.provider)
      × ((finished_row now attempts succeeded r).provider_event_id ≡ r.provider_event_id)
unfolding finished_row
finished_keeps now attempts true r = (refl, refl)
finished_keeps now attempts false r = (refl, refl)

apply-Knows :
    (provider event_id : ℕ) (m : Move) (rows : List WebhookEvent)
    → Knows provider event_id rows
    → Knows provider event_id (apply m rows)
unfolding apply enqueue_event claim_batch
apply-Knows provider event_id (enqueue now id p e event) rows h = ground arith
apply-Knows provider event_id (claim now) rows h =
    map-Knows provider event_id (claim_row now (due_ids now rows)) rows (λ r. ground arith) h
apply-Knows provider event_id (finish now id attempts succeeded) rows h =
    map-Knows provider event_id (update_event id (finished_row now attempts succeeded)) rows
      (λ r. ground (arith, finished_keeps now attempts succeeded r)) h

run-Knows :
    (provider event_id : ℕ) (ms : List Move) (rows : List WebhookEvent)
    → Knows provider event_id rows
    → Knows provider event_id (run ms rows)
unfolding run
run-Knows provider event_id [] rows h = h
run-Knows provider event_id (m ∷ ms) rows h =
    run-Knows provider event_id ms (apply m rows) (apply-Knows provider event_id m rows h)

pub duplicate :
    (now id provider event_id : ℕ) (event : ProviderEvent) (rows : List WebhookEvent)
    → Knows provider event_id rows
    → enqueue_event now id provider event_id event rows ≡ (false, rows)
unfolding enqueue_event
duplicate now id provider event_id event rows h = ground arith

-- The row of an event that is new.
abbrev pub IsQueued : ℕ → ℕ → ℕ → ℕ → ProviderEvent → WebhookEvent → Type 0
IsQueued now id provider event_id event r =
    (r.id ≡ id)
    × (r.provider ≡ provider)
    × (r.provider_event_id ≡ event_id)
    × (r.event ≡ event)
    × (r.attempts ≡ 0)
    × ((later : ℕ) → is_due later r ≡ not (is_ignored event) && leb now later)

abbrev pub new_row : ℕ → ℕ → ℕ → ℕ → ProviderEvent → WebhookEvent
new_row now id provider event_id event = record {
  id = id;
  provider = provider;
  provider_event_id = event_id;
  event = event;
  status = if is_ignored event then WebhookStatus.processed else WebhookStatus.received;
  attempts = 0;
  next_attempt_at = now;
  locked_at = none;
  received_at = now;
}

pub added_lem :
    (now id provider event_id : ℕ) (event : ProviderEvent) (rows : List WebhookEvent)
    → find? (same_event provider event_id) rows ≡ none
    → enqueue_event now id provider event_id event rows
      ≡ (true, new_row now id provider event_id event ∷ rows)
unfolding enqueue_event
added_lem now id provider event_id event rows new = ground (arith, new)

other_event :
    (provider event_id : ℕ) (r : WebhookEvent)
    → same_event provider event_id r ≡ false
    → (r.provider ≢ provider) ⊎ (r.provider_event_id ≢ event_id)
other_event provider event_id r other = elim (Bool-cases (r.provider == provider)) [
  | inl same ↦ inr (λ e. ground (arith, e, same, other))
  | inr apart ↦ inl (λ e. ground (arith, e, apart))
]

-- The answer to an event says whether it was new. If the same provider's event of that id was stored,
-- nothing changes; if not, its row is added, and is due from now on unless there is nothing to do for
-- it. Whatever is stored, claimed and handled afterwards, the event is a duplicate from then on:
-- storing it again, under any id, changes no row.
pub enqueue_event_once :
    (now later id id' provider event_id : ℕ) (event event' : ProviderEvent)
    (rows : List WebhookEvent) (ms : List Move)
    → let stored = enqueue_event now id provider event_id event rows in
      let after = run ms stored.1 in
      ((Any (λ (r : WebhookEvent). (r.provider ≡ provider) × (r.provider_event_id ≡ event_id)) rows
          × (stored ≡ (false, rows)))
        ⊎ (All
              (λ (r : WebhookEvent). (r.provider ≢ provider) ⊎ (r.provider_event_id ≢ event_id))
              rows
            × ((r : WebhookEvent) × IsQueued now id provider event_id event r
                × (stored ≡ (true, r ∷ rows)))))
      × (enqueue_event later id' provider event_id event' after ≡ (false, after))
unfolding enqueue_event is_due
enqueue_event_once now later id id' provider event_id event event' rows ms =
    elim (find?-cases (same_event provider event_id) rows) [
      | inr (r, known, there) ↦
          let same : enqueue_event now id provider event_id event rows ≡ (false, rows) =
            duplicate now id provider event_id event rows (ground (arith, known)) in
          (
            inl (
              Any-implies _ _ rows (λ r both. (ground (arith, both), ground (arith, both))) there,
              same,
            ),
            rw same (
                duplicate later id' provider event_id event' (run ms rows)
                  (run-Knows provider event_id ms rows (ground (arith, known)))),
          )
      | inl (new, apart) ↦
          let row = new_row now id provider event_id event in
          let added : enqueue_event now id provider event_id event rows ≡ (true, row ∷ rows) =
            added_lem now id provider event_id event rows new in
          (
            inr (
              All-implies _ _ rows (λ r other. other_event provider event_id r other) apart,
              (row, (refl, refl, refl, refl, refl, λ t. ground arith), added),
            ),
            rw added (
                duplicate later id' provider event_id event' (run ms (row ∷ rows))
                  (run-Knows provider event_id ms (row ∷ rows) (ground arith))),
          )
    ]
