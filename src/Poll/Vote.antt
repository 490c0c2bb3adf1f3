-- ===== src/Poll/Vote.antt =====
-- Voting (the public router of src/routes/polls.ts) and `applyPollVotes` of
-- src/services/poll.service.ts.
use duevy_be.Base.{
  ℕ, ◌+◌, ◌-◌, ◌*◌, Bool, true, false, ◌&&◌, ◌==◌, leb, not, is_some, map, find?, mem?, length,
  sum_by, if◌then◌else◌, Option, none, some, List, [], ◌∷◌, ◌++◌,
}
use duevy_be.Base.Results.{app_error, Code}
use duevy_be.Base.Stateful.{pure, gets, or_raise, transaction, ◌>>=◌, ◌>>◌, raise_if, modify}
use duevy_be.Store.{Membership}
use duevy_be.Poll.{
  PollStatus, Nominee, PollCategory, Poll, PollVote, PollDb, Polls, is_poll, update_poll,
  auto_close,
}
use duevy_be.Poll.Manage.{update_nominee}
use duevy_be.Poll.Slug.{same_slug}

pub record VoteSelection : Type 0 where
  pub category_id : ℕ
  pub nominee_id : ℕ
  pub quantity : ℕ

abbrev pub total_quantity : List VoteSelection → ℕ
total_quantity = sum_by (λ (s : VoteSelection). s.quantity)

abbrev pub vote_row : ℕ → ℕ → ℕ → VoteSelection → PollVote
vote_row user amount reference s = record {
  user_id = user;
  nominee_id = s.nominee_id;
  category_id = s.category_id;
  quantity = s.quantity;
  amount_paid = s.quantity * amount;
  txn_ref = reference;
}

-- `votes: { increment }`
abbrev pub count_vote : ℕ → Nominee → Nominee
count_vote quantity n = record n { votes = n.votes + quantity }

-- The tallies of the nominees, one selection after the other.
unfoldable pub bump_all : List VoteSelection → PollDb → PollDb
bump_all [] db = db
bump_all (s ∷ sels) db = bump_all sels (update_nominee s.nominee_id (count_vote s.quantity) db)

abbrev pub rolled_up : ℕ → ℕ → Poll → Poll
rolled_up votes revenue p = record p {
  total_votes = p.total_votes + votes;
  revenue = p.revenue + revenue;
}

abbrev pub add_votes : List PollVote → PollDb → PollDb
add_votes rows db = record db { poll_votes = rows ++ db.poll_votes }

-- The answer: how many votes, and what the space earns.
unfoldable pub apply_poll_votes : ℕ → ℕ → List VoteSelection → ℕ → ℕ → Polls (ℕ × ℕ)
apply_poll_votes poll user sels amount reference =
    let quantity = total_quantity sels in
    modify (add_votes (map (vote_row user amount reference) sels))
    >> modify (bump_all sels)
    >> modify (update_poll poll (rolled_up quantity (quantity * amount)))
    >> pure (quantity, quantity * amount)

abbrev pub categories_of : List VoteSelection → List ℕ
categories_of = map (λ (s : VoteSelection). s.category_id)

unfoldable pub distinct : List ℕ → Bool
distinct [] = true
distinct (k ∷ ks) = not (mem? k ks) && distinct ks

abbrev pub all_counts : List VoteSelection → Bool
all_counts [] = true
all_counts (s ∷ sels) = leb 1 s.quantity && (leb s.quantity 1000 && all_counts sels)

-- `voteSchema`: 1 to 50 selections, each category once, 1 to 1000 votes on each.
unfoldable pub valid_selections : List VoteSelection → Bool
valid_selections sels =
    leb 1 (length sels)
    && (leb (length sels) 50 && (all_counts sels && distinct (categories_of sels)))

abbrev pub has_nominee : ℕ → List Nominee → Bool
has_nominee id ns = is_some (find? (λ (n : Nominee). n.id == id) ns)

abbrev pub selects : List PollCategory → VoteSelection → Bool
selects cs s = elim (find? (λ (c : PollCategory). c.id == s.category_id) cs) [
  | none ↦ false
  | some c ↦ has_nominee s.nominee_id c.nominees
]

unfoldable pub all_selected : List PollCategory → List VoteSelection → Bool
all_selected cs [] = true
all_selected cs (s ∷ sels) = selects cs s && all_selected cs sels

abbrev pub find_slug : List ℕ → List Poll → Option Poll
find_slug slug = find? (λ (p : Poll). same_slug p.slug slug)

-- A draft is not shown to anybody.
abbrev pub shown : Option Poll → Option Poll
shown none = none
shown (some p) = if is_poll p.status PollStatus.draft then none else some p

abbrev pub is_member : ℕ → ℕ → PollDb → Bool
is_member user space db =
    is_some (find? (λ (m : Membership). m.user_id == user && (m.space_id == space)) db.memberships)

-- A vote of the user in one of the categories.
unfoldable pub has_voted : ℕ → List ℕ → List PollVote → Bool
has_voted user cats [] = false
has_voted user cats (v ∷ vs) =
    let rest = has_voted user cats vs in
    if v.user_id == user && mem? v.category_id cats then true else rest

abbrev pub single : VoteSelection → VoteSelection
single s = record s { quantity = 1 }

-- The user's votes on the poll are serialised by a lock, so the test and the writes are one step.
unfoldable pub vote_tx : ℕ → ℕ → ℕ → List VoteSelection → Polls (ℕ × ℕ)
unfolding apply_poll_votes
vote_tx poll user reference sels = transaction (do
  voted ← gets (λ (db : PollDb). has_voted user (categories_of sels) db.poll_votes)
  raise_if voted (app_error 409 Code.already_voted)
  apply_poll_votes poll user sels 0 reference)

-- The poll at hand has been closed if it was over.
unfoldable pub vote_on : ℕ → ℕ → List VoteSelection → Poll → Polls ℕ
unfolding vote_tx
vote_on user reference sels p = do
  raise_if (not (is_poll p.status PollStatus.active)) (app_error 409 Code.poll_closed)
  raise_if (not (all_selected p.categories sels)) (app_error 400 Code.validation_error)
  member ← gets (is_member user p.space_id)
  raise_if (p.members_only && not member) (app_error 403 Code.members_only)
  raise_if p.paid (app_error 501 Code.paid_voting_unavailable)
  vote_tx p.id user reference (map single sels) >>= λ counted. pure reference

-- The receipt is the reference of the vote.
unfoldable pub cast_votes : ℕ → ℕ → ℕ → List ℕ → List VoteSelection → Polls ℕ
unfolding auto_close vote_on
cast_votes now user reference slug sels = do
  raise_if (not (valid_selections sels)) (app_error 400 Code.validation_error)
  found ← gets (λ (db : PollDb). shown (find_slug slug db.polls))
  poll ← or_raise found (app_error 404 Code.not_found)
  current ← auto_close now poll
  vote_on user reference sels current

-- What a voter is shown: the poll, whether the tallies are shown, and what is left in each category;
-- nothing is counted for someone who is not signed in.
pub record VoterView : Type 0 where
  pub poll : Poll
  pub show_votes : Bool
  pub remaining : List (ℕ × Option (Option ℕ))

abbrev pub cast_in : ℕ → ℕ → List PollVote → ℕ
cast_in user category votes =
    sum_by
      (λ (v : PollVote). if v.user_id == user && (v.category_id == category) then v.quantity else 0)
      votes

-- One vote in each category of a free poll; no limit in a paid one.
abbrev pub left_in : Option ℕ → Bool → List PollVote → ℕ → Option (Option ℕ)
left_in none paid votes category = none
left_in (some user) paid votes category =
    some (if paid then none else some (1 - cast_in user category votes))

abbrev pub voter_view : Option ℕ → Poll → List PollVote → VoterView
voter_view viewer p votes = record {
  poll = p;
  show_votes = is_poll p.status PollStatus.closed;
  remaining = map (λ (c : PollCategory). (c.id, left_in viewer p.paid votes c.id)) p.categories;
}

unfoldable pub view_poll : ℕ → Option ℕ → List ℕ → Polls VoterView
unfolding auto_close
view_poll now viewer slug = do
  found ← gets (λ (db : PollDb). shown (find_slug slug db.polls))
  poll ← or_raise found (app_error 404 Code.not_found)
  current ← auto_close now poll
  member ←
      gets (λ db. elim viewer [ none ↦ false | some user ↦ is_member user current.space_id db ])
  raise_if (current.members_only && not member) (app_error 403 Code.members_only)
  gets (λ (db : PollDb). voter_view viewer current db.poll_votes)
