-- ===== src/Idempotency.antt =====
-- src/middleware/idempotency.ts: the Idempotency-Key of a payment request is claimed before its
-- handler runs, and a stored answer is replayed. The scoped key and the fingerprint, which SHA-256
-- makes of the request, are arguments; a body is a number.
use duevy_be.Base.{
  ℕ, ◌+◌, ◌≡◌, refl, Bool, false, ◌&&◌, ◌==◌, ltb, leb, not, keep, if◌then◌else◌, Option, none,
  some, List, [], ◌∷◌, true, arith,
}
use duevy_be.Base.Table.{find_by, update_by}

-- 24 hours, in milliseconds.
abbrev pub ttl_ms : ℕ
ttl_ms = 86400000

-- A row of `idempotency_keys`: the status 0 is a claim whose handler has not ended.
pub record IdempotencyKey : Type 0 where
  pub key : ℕ
  pub request_hash : Option ℕ
  pub response_status : ℕ
  pub response_body : ℕ
  pub expires_at : ℕ

-- What the middleware does with a request.
pub data Verdict : Type 0 where
  run_handler key_reused in_progress : Verdict
  replayed : ℕ → ℕ → Verdict

unfoldable pub find_key : ℕ → List IdempotencyKey → Option IdempotencyKey
find_key = find_by (λ k. k.key)

abbrev pub claimed_key : ℕ → ℕ → ℕ → IdempotencyKey
claimed_key now key hash = record {
  key = key;
  request_hash = some hash;
  response_status = 0;
  response_body = 0;
  expires_at = now + ttl_ms;
}

abbrev pub without_key : ℕ → List IdempotencyKey → List IdempotencyKey
without_key key = keep (λ (k : IdempotencyKey). not (k.key == key))

-- `existing.requestHash && existing.requestHash !== requestHash`
abbrev pub differs : Option ℕ → ℕ → Bool
differs none hash = false
differs (some h) hash = not (h == hash)

-- `claim` and `idempotent` up to `next()`: one request at a time, the unique key decides races.
unfoldable pub admit : ℕ → ℕ → ℕ → List IdempotencyKey → Verdict × List IdempotencyKey
admit now key hash keys = elim (find_key key keys) [
  | none ↦ (run_handler, claimed_key now key hash ∷ keys)
  | some existing ↦
      if ltb existing.expires_at now
      then (run_handler, claimed_key now key hash ∷ without_key key keys)
      else (if differs existing.request_hash hash
          then (key_reused, keys)
          else (if existing.response_status == 0
              then (in_progress, keys)
              else (replayed existing.response_status existing.response_body, keys)))
]

abbrev pub store_answer : ℕ → ℕ → IdempotencyKey → IdempotencyKey
store_answer status body k = record k { response_status = status; response_body = body }

-- What a request that was admitted has of its own: whether it has settled its claim.
pub record Claim : Type 0 where
  pub key : ℕ
  pub settled : Bool

abbrev pub open_claim : ℕ → Claim
open_claim key = record { key = key; settled = false }

-- `release`: delete the claim, if it was not settled.
unfoldable pub release : Claim × List IdempotencyKey → Claim × List IdempotencyKey
release (c, keys) = if c.settled then (c, keys) else (
  record c { settled = true },
  keep (λ (k : IdempotencyKey). not (k.key == c.key && (k.response_status == 0))) keys,
)

-- `res.json`: a 2xx answer settles the claim and is stored, unless the store fails, which is logged;
-- any other answer, or one after the settlement, releases it.
unfoldable pub answer : Bool → ℕ → ℕ → Claim × List IdempotencyKey → Claim × List IdempotencyKey
unfolding release
answer stores status body (c, keys) =
    if leb 200 status && ltb status 300 && not c.settled
    then (
      record c { settled = true },
      if stores
          then update_by (λ (k : IdempotencyKey). k.key) c.key (store_answer status body) keys
          else keys,
    )
    else release (c, keys)

-- `res.on('close', release)`: the answer has been sent, or the client has gone away, though the handler
-- may still run.
abbrev pub close : Claim × List IdempotencyKey → Claim × List IdempotencyKey
close = release

-- Requests with their times, keys and fingerprints, as they come in.
unfoldable pub admit_all : List (ℕ × ℕ × ℕ) → List IdempotencyKey → List IdempotencyKey
admit_all [] keys = keys
admit_all ((now, key, hash) ∷ rest) keys = admit_all rest (admit now key hash keys).1

-- The times of the requests for one key are not past its end; other keys have any time.
abbrev pub before : ℕ → ℕ → ℕ × ℕ × ℕ → Bool
before key until (now, other, hash) = if other == key then leb now until else true

gone_key :
    (key : ℕ) (keys : List IdempotencyKey)
    → find_key key keys ≡ none
    → find_key key
        (keep (λ (k : IdempotencyKey). not (k.key == key && (k.response_status == 0))) keys)
      ≡ none
unfolding find_key find_by
gone_key key [] free = refl
gone_key key (k ∷ keys) free = ground (arith, gone_key key keys)

-- A client that goes away frees its key, though its handler may still run: the next request with the
-- key is admitted.
closed_is_admitted :
    (now later key hash : ℕ) (keys : List IdempotencyKey)
    → find_key key keys ≡ none
    → (admit later key hash (close (open_claim key, (admit now key hash keys).1)).1).0 ≡ run_handler
unfolding admit release
closed_is_admitted now later key hash keys free = ground (arith, free, gone_key key keys free)
