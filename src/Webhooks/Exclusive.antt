-- ===== src/Webhooks/Exclusive.antt =====
-- The rows of a claimed batch (src/jobs/webhookWorker.ts) until their handlers end.
use duevy_be.Base.{
  ℕ, ◌+◌, ◌≤◌, ◌≡◌, ◌⊎◌, refl, Bool, true, false, ◌&&◌, ◌==◌, ==→eq, leb, not, find?, map, mem?,
  All, some, keep, take, All-keep, All-take, All-map, List, [], ◌∷◌, Bool-cases, Option-cases, inl,
  inr, arith,
}
use duevy_be.Webhooks.Queue.{
  WebhookEvent, WebhookStatus, same_event, insert_event, sort_events, event_id, batch, is_due,
  due_ids, claim_row, claim_batch, stale_lock_ms, finished_row, update_event,
}
use duevy_be.Webhooks.Life.{Move, enqueue, claim, finish, apply, run, duplicate, added_lem}

-- What leaves the rows of a batch alone: events with other ids, claims up to the time, and the end of
-- the handlers of other rows.
abbrev pub spares : List ℕ → ℕ → Move → Bool
spares ids until (enqueue now id provider event_id event) = not (mem? id ids)
spares ids until (claim now) = leb now until
spares ids until (finish now id attempts succeeded) = not (mem? id ids)

abbrev IsHeld : List ℕ → ℕ → WebhookEvent → Type 0
IsHeld ids now r =
    (mem? r.id ids ≡ false) ⊎ ((r.status ≡ WebhookStatus.processing) × (r.locked_at ≡ some now))

All-insert_event :
    (P : WebhookEvent → Type 0) (e : WebhookEvent) (es : List WebhookEvent)
    → P e
    → All P es
    → All P (insert_event e es)
unfolding insert_event
All-insert_event P e [] p all = (p, tt)
All-insert_event P e (f ∷ fs) p (q, all) = elim (Bool-cases (leb e.received_at f.received_at)) [
  | inl before ↦ rw before (p, (q, all))
  | inr after ↦ rw after (q, All-insert_event P e fs p all)
]

All-sort_events :
    (P : WebhookEvent → Type 0) (es : List WebhookEvent) → All P es → All P (sort_events es)
unfolding sort_events
All-sort_events P [] all = tt
All-sort_events P (e ∷ es) (p, all) =
    All-insert_event P e (sort_events es) p (All-sort_events P es all)

apart_ids :
    (ids : List ℕ) (k : ℕ) (es : List WebhookEvent)
    → All (λ (r : WebhookEvent). mem? r.id ids ≡ false) es
    → mem? k ids && mem? k (map event_id es) ≡ false
apart_ids ids k [] all = ground arith
apart_ids ids k (e ∷ es) (p, all) = ground (arith, apart_ids ids k es all, ==→eq k e.id)

held_not_due :
    (ids : List ℕ) (now later : ℕ) (r : WebhookEvent)
    → later ≤ now + stale_lock_ms
    → is_due later r ≡ true
    → IsHeld ids now r
    → mem? r.id ids ≡ false
unfolding is_due
held_not_due ids now later r soon due (inl other) = other
held_not_due ids now later r soon due (inr (busy, locked)) = absurd (ground arith)

-- A claim while the batch is held takes other rows.
due_ids-apart :
    (ids : List ℕ) (k now later : ℕ) (rows : List WebhookEvent)
    → later ≤ now + stale_lock_ms
    → All (IsHeld ids now) rows
    → mem? k ids && mem? k (due_ids later rows) ≡ false
unfolding due_ids
due_ids-apart ids k now later rows soon all =
    apart_ids ids k (take batch (sort_events (keep (is_due later) rows))) (
      All-take _ batch (sort_events (keep (is_due later) rows)) (
        All-sort_events _ (keep (is_due later) rows) (
          All-keep (IsHeld ids now) _ (is_due later) rows
            (λ r due held. held_not_due ids now later r soon due held) all)))

map-IsHeld :
    (ids : List ℕ) (now : ℕ) (f : WebhookEvent → WebhookEvent) (rows : List WebhookEvent)
    → ((r : WebhookEvent) → IsHeld ids now r → IsHeld ids now (f r))
    → All (IsHeld ids now) rows
    → All (IsHeld ids now) (map f rows)
map-IsHeld ids now f rows keeps all = All-map (IsHeld ids now) (IsHeld ids now) f rows keeps all

claim_row-IsHeld :
    (ids others : List ℕ) (now later : ℕ) (r : WebhookEvent)
    → mem? r.id ids && mem? r.id others ≡ false
    → IsHeld ids now r
    → IsHeld ids now (claim_row later others r)
claim_row-IsHeld ids others now later r apart held = elim (Bool-cases (mem? r.id others)) [
  | inl taken_now ↦ rw taken_now (inl (ground arith))
  | inr left ↦ rw left held
]

finish-IsHeld :
    (ids : List ℕ) (now later id attempts : ℕ) (succeeded : Bool) (r : WebhookEvent)
    → mem? id ids ≡ false
    → IsHeld ids now r
    → IsHeld ids now (update_event id (finished_row later attempts succeeded) r)
unfolding finished_row
finish-IsHeld ids now later id attempts succeeded r other held = elim (Bool-cases (r.id == id)) [
  | inr left ↦ rw left held
  | inl is ↦ inl (finished_id ids later attempts succeeded r id is other)
]
  where
    finished_id :
        (ids : List ℕ) (later attempts : ℕ) (succeeded : Bool) (r : WebhookEvent) (id : ℕ)
        → (r.id == id) ≡ true
        → mem? id ids ≡ false
        → mem? (update_event id (finished_row later attempts succeeded) r).id ids ≡ false
    finished_id ids later attempts true r id is other = ground (arith, ==→eq r.id id is)
    finished_id ids later attempts false r id is other = ground (arith, ==→eq r.id id is)

apply-IsHeld :
    (ids : List ℕ) (now : ℕ) (m : Move) (rows : List WebhookEvent)
    → spares ids (now + stale_lock_ms) m ≡ true
    → All (IsHeld ids now) rows
    → All (IsHeld ids now) (apply m rows)
unfolding apply claim_batch
apply-IsHeld ids now (enqueue t id provider e event) rows spared all =
    elim (Option-cases (find? (same_event provider e) rows)) [
      | inr (r, known) ↦ rw (duplicate t id provider e event rows (ground (arith, known)), All) all
      | inl new ↦ rw (added_lem t id provider e event rows new, All) (inl (ground arith), all)
    ]
apply-IsHeld ids now (claim t) rows spared all =
    map-IsHeld ids now (claim_row t (due_ids t rows)) rows
      (λ r held.
        claim_row-IsHeld ids (due_ids t rows) now t r
          (due_ids-apart ids r.id now t rows (ground arith) all) held)
      all
apply-IsHeld ids now (finish t id attempts succeeded) rows spared all =
    map-IsHeld ids now (update_event id (finished_row t attempts succeeded)) rows
      (λ r held. finish-IsHeld ids now t id attempts succeeded r (ground arith) held) all

run-IsHeld :
    (ids : List ℕ) (now : ℕ) (ms : List Move) (rows : List WebhookEvent)
    → All (λ (m : Move). spares ids (now + stale_lock_ms) m ≡ true) ms
    → All (IsHeld ids now) rows
    → All (IsHeld ids now) (run ms rows)
unfolding run
run-IsHeld ids now [] rows spared all = all
run-IsHeld ids now (m ∷ ms) rows (here, spared) all =
    run-IsHeld ids now ms (apply m rows) spared (apply-IsHeld ids now m rows here all)

claimed-IsHeld :
    (ids : List ℕ) (now : ℕ) (rows : List WebhookEvent)
    → All (IsHeld ids now) (map (claim_row now ids) rows)
claimed-IsHeld ids now [] = tt
claimed-IsHeld ids now (r ∷ rows) = (
  elim (Bool-cases (mem? r.id ids)) [
    | inl mine ↦ rw mine (inr (refl, refl))
    | inr other ↦ rw other (inl other)
  ],
  claimed-IsHeld ids now rows,
)

-- While the handlers of a claimed batch have not ended, and for five minutes from the claim, no
-- other claim takes a row of the batch, whatever events with new ids are stored, whatever other
-- workers claim in that time, and whatever handlers of other rows end.
pub claim_batch_is_exclusive :
    (now later k : ℕ) (rows : List WebhookEvent) (ms : List Move)
    → later ≤ now + stale_lock_ms
    → All (λ (m : Move). spares (due_ids now rows) (now + stale_lock_ms) m ≡ true) ms
    → mem? k (due_ids now rows) && mem? k (due_ids later (run ms (claim_batch now rows).1)) ≡ false
unfolding claim_batch
claim_batch_is_exclusive now later k rows ms soon spared =
    let ids = due_ids now rows in
    due_ids-apart ids k now later (run ms (map (claim_row now ids) rows)) soon
      (run-IsHeld ids now ms (map (claim_row now ids) rows) spared (claimed-IsHeld ids now rows))
