-- ===== src/Poll/Tally.antt =====
-- The tallies of the nominees against the votes (`applyPollVotes` of src/services/poll.service.ts,
-- and its callers in src/routes/polls.ts).
use duevy_be.Base.{
  ℕ, ◌+◌, ◌≡◌, refl, sym, ◌==◌, map, sum_by, if◌then◌else◌, List, [], ◌∷◌, ◌++◌, All, All-map,
  All-implies, arith,
}
use duevy_be.Base.Table.{All-update_by}
use duevy_be.Base.Stateful.Keeps.{Keeps}
use duevy_be.Poll.{Nominee, PollCategory, Poll, PollVote, PollDb, poll_id, update_poll}
use duevy_be.Poll.Manage.{on_nominee, in_category, in_poll, update_nominee}
use duevy_be.Poll.Vote.{VoteSelection, vote_row, count_vote, bump_all, add_votes, apply_poll_votes}

-- The votes that the rows give a nominee.
unfoldable pub tally : ℕ → List PollVote → ℕ
tally nominee = sum_by (λ (v : PollVote). if v.nominee_id == nominee then v.quantity else 0)

abbrev pub Counted : (ℕ → ℕ) → Nominee → Type 0
Counted count n = n.votes ≡ count n.id

abbrev pub CountedPoll : (ℕ → ℕ) → Poll → Type 0
CountedPoll count p = All (λ (c : PollCategory). All (Counted count) c.nominees) p.categories

-- Each nominee of each poll has as many votes as the count gives it.
abbrev pub AreCounted : (ℕ → ℕ) → List Poll → Type 0
AreCounted count polls = All (CountedPoll count) polls

abbrev pub IsTallied : PollDb → Type 0
IsTallied db = AreCounted (λ n. tally n db.poll_votes) db.polls

abbrev chosen : ℕ → List VoteSelection → ℕ
chosen nominee = sum_by (λ (s : VoteSelection). if s.nominee_id == nominee then s.quantity else 0)

-- A change of every nominee, and of the count with it.
pub map-AreCounted :
    (count count' : ℕ → ℕ) (f : Nominee → Nominee) (polls : List Poll)
    → ((n : Nominee) → Counted count n → Counted count' (f n))
    → AreCounted count polls
    → AreCounted count' (map (in_poll f) polls)
map-AreCounted count count' f polls h =
    All-map _ _ (in_poll f) polls
      λ p. All-map _ _ (in_category f) p.categories λ c. All-map _ _ f c.nominees h

AreCounted-congr :
    (count count' : ℕ → ℕ) (polls : List Poll)
    → ((k : ℕ) → count k ≡ count' k)
    → AreCounted count polls
    → AreCounted count' polls
AreCounted-congr count count' polls h =
    All-implies _ _ polls
      λ p. All-implies _ _ p.categories λ c. All-implies _ _ c.nominees λ n is. cc (h n.id)

bump-AreCounted :
    (count : ℕ → ℕ) (s : VoteSelection) (db : PollDb)
    → AreCounted count db.polls
    → AreCounted
        (λ k. count k + (if s.nominee_id == k then s.quantity else 0))
        (update_nominee s.nominee_id (count_vote s.quantity) db).polls
unfolding update_nominee
bump-AreCounted count s db =
    map-AreCounted count _ (on_nominee s.nominee_id (count_vote s.quantity)) db.polls
      λ n is. ground arith

bump_all-AreCounted :
    (sels : List VoteSelection) (count : ℕ → ℕ) (db : PollDb)
    → AreCounted count db.polls
    → AreCounted (λ k. count k + chosen k sels) (bump_all sels db).polls
unfolding bump_all
bump_all-AreCounted [] count db h = AreCounted-congr count _ db.polls (λ k. omega arith) h
bump_all-AreCounted (s ∷ sels) count db h =
    let counted = λ (k : ℕ). count k + (if s.nominee_id == k then s.quantity else 0) in
    let next = update_nominee s.nominee_id (count_vote s.quantity) db in
    AreCounted-congr (λ k. counted k + chosen k sels) (λ k. count k + chosen k (s ∷ sels))
      (bump_all sels next).polls (λ k. omega arith)
      (bump_all-AreCounted sels counted next (bump-AreCounted count s db h))

pub bump_all-votes :
    (sels : List VoteSelection) (db : PollDb) → (bump_all sels db).poll_votes ≡ db.poll_votes
unfolding bump_all update_nominee
bump_all-votes [] db = refl
bump_all-votes (s ∷ sels) db =
    bump_all-votes sels (update_nominee s.nominee_id (count_vote s.quantity) db)

tally-add :
    (k user amount reference : ℕ) (sels : List VoteSelection) (votes : List PollVote)
    → tally k (map (vote_row user amount reference) sels ++ votes) ≡ tally k votes + chosen k sels
unfolding tally
tally-add k user amount reference [] votes = omega arith
tally-add k user amount reference (s ∷ sels) votes =
    ground (arith, tally-add k user amount reference sels votes)

-- An update of a poll that leaves its categories.
pub update_poll-IsTallied :
    (id : ℕ) (f : Poll → Poll) (db : PollDb)
    → ((p : Poll) → (f p).categories ≡ p.categories)
    → IsTallied db
    → IsTallied (update_poll id f db)
unfolding update_poll
update_poll-IsTallied id f db same h =
    All-update_by poll_id (CountedPoll (λ n. tally n db.poll_votes)) id f db.polls
      (λ p is. rw (same p) is) h

pub apply_poll_votes-Keeps :
    (poll user : ℕ) (sels : List VoteSelection) (amount reference : ℕ)
    → Keeps IsTallied (apply_poll_votes poll user sels amount reference)
unfolding apply_poll_votes
apply_poll_votes-Keeps poll user sels amount reference = record {
  keeps = λ db h.
      let rows = map (vote_row user amount reference) sels in
      let counted = bump_all sels (add_votes rows db) in
      let votes = bump_all-votes sels (add_votes rows db) in
      update_poll-IsTallied poll _ counted (λ p. refl)
        (AreCounted-congr (λ k. tally k db.poll_votes + chosen k sels)
          (λ k. tally k counted.poll_votes) counted.polls
          (λ k. rw votes (sym (tally-add k user amount reference sels db.poll_votes)))
          (bump_all-AreCounted sels (λ k. tally k db.poll_votes) (add_votes rows db) h));
}
