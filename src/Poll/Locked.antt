-- ===== src/Poll/Locked.antt =====
-- What an edit can not change once a poll is active (`PATCH /polls/:pollId` of src/routes/polls.ts).
use duevy_be.Base.{ℕ, ◌≤◌, ◌≡◌, refl, ap, true, false, Option, none, some, arith}
use duevy_be.Base.Results.{ok}
use duevy_be.Base.Table.{find_by-update_by, find_by-key}
use duevy_be.Poll.{Poll, PollDb, PollStatus, is_poll, find_poll, update_poll, poll_id}
use duevy_be.Poll.Manage.{PollPatch, patch_row, patch_poll, active_row, not_later}

found-updated :
    (id : ℕ) (p : Poll) (f : Poll → Poll) (db : PollDb)
    → ((q : Poll) → (f q).id ≡ q.id)
    → find_poll id db.polls ≡ some p
    → find_poll id (update_poll id f db).polls ≡ some (f p)
unfolding find_poll update_poll
found-updated id p f db keeps found =
    ground (arith, find_by-update_by poll_id id id f db.polls keeps)

later_deadline :
    (old : ℕ) (d : Option ℕ) → not_later old d ≡ false → old ≤ elim d [ none ↦ old | some t ↦ t ]
later_deadline old none h = omega arith
later_deadline old (some t) h = ground arith

-- An edit of an active poll that succeeds leaves a row in which members-only, paid, the amount, the
-- status, the slug, the votes and the categories are as before, and whose deadline is not earlier; the
-- answer is that row.
pub patch_poll-active :
    (space id : ℕ) (d : PollPatch) (p : Poll) (db : PollDb) {q : Poll}
    → find_poll id db.polls ≡ some p
    → is_poll p.status PollStatus.active ≡ true
    → (patch_poll space id d db).0 ≡ ok q
    → (find_poll id (patch_poll space id d db).1.polls ≡ some q)
      × (q.members_only ≡ p.members_only)
      × (q.paid ≡ p.paid)
      × (q.amount_per_vote ≡ p.amount_per_vote)
      × (q.status ≡ p.status)
      × (q.slug ≡ p.slug)
      × (q.total_votes ≡ p.total_votes)
      × (q.categories ≡ p.categories)
      × (p.deadline ≤ q.deadline)
unfolding patch_poll patch_row find_poll
patch_poll-active space id d p db {q} found opened done =
    let key = find_by-key poll_id id db.polls {a = p} found in
    let there = found-updated id p (active_row d) db (λ r. refl) found in
    let is : q ≡ active_row d p = ground arith in
    let same : (patch_poll space id d db).1 ≡ update_poll id (active_row d) db =
      ground (arith, key) in
    let late = later_deadline p.deadline d.deadline (ground arith) in
    (
      rw (same, is) there,
      ap (λ (r : Poll). r.members_only) is,
      ap (λ (r : Poll). r.paid) is,
      ap (λ (r : Poll). r.amount_per_vote) is,
      ap (λ (r : Poll). r.status) is,
      ap (λ (r : Poll). r.slug) is,
      ap (λ (r : Poll). r.total_votes) is,
      ap (λ (r : Poll). r.categories) is,
      rw (ap (λ (r : Poll). r.deadline) is) late,
    )
