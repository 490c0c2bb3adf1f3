-- ===== src/Poll.antt =====
-- src/routes/polls.ts and src/services/poll.service.ts: polls of a space, with categories and the
-- nominees to vote for. Tables hold the polls with what they include, the votes and the memberships.
pub mod Slug
pub mod Manage
pub mod Vote
pub mod Tally
pub mod Once
pub mod Runs
pub mod Locked
use duevy_be.Base.{
  ℕ, Bool, true, false, ◌&&◌, ◌==◌, ltb, map, if◌then◌else◌, Option, none, some, List, [], ◌∷◌,
}
use duevy_be.Base.Results.{app_error, Code}
use duevy_be.Base.Table.{find_by, update_by}
use duevy_be.Base.Stateful.{Stateful, pure, raise, gets, or_raise, ◌>>=◌, ◌>>◌, modify}
use duevy_be.Store.{Membership}

pub data PollStatus : Type 0 where
  draft active closed : PollStatus

pub record Nominee : Type 0 where
  pub id : ℕ
  pub name : ℕ
  pub image_url : Option ℕ
  pub bio : Option ℕ
  pub code : Option ℕ
  pub votes : ℕ

pub record PollCategory : Type 0 where
  pub id : ℕ
  pub title : ℕ
  pub image_url : Option ℕ
  pub nominees : List Nominee

pub record Poll : Type 0 where
  pub id : ℕ
  pub space_id : ℕ
  pub title : ℕ
  pub description : Option ℕ
  pub deadline : ℕ
  pub status : PollStatus
  pub members_only : Bool
  pub paid : Bool
  pub amount_per_vote : ℕ
  pub slug : List ℕ
  pub total_votes : ℕ
  pub revenue : ℕ
  pub cover_image_url : Option ℕ
  pub theme_color : Option ℕ
  pub published_at : Option ℕ
  pub closed_at : Option ℕ
  pub categories : List PollCategory

pub record PollVote : Type 0 where
  pub user_id : ℕ
  pub nominee_id : ℕ
  pub category_id : ℕ
  pub quantity : ℕ
  pub amount_paid : ℕ
  pub txn_ref : ℕ

pub record PollDb : Type 0 where
  pub polls : List Poll
  pub poll_votes : List PollVote
  pub memberships : List Membership

abbrev pub Polls : Type 0 → Type 0
Polls A = Stateful PollDb A

abbrev status_tag : PollStatus → ℕ
status_tag PollStatus.draft = 0
status_tag PollStatus.active = 1
status_tag PollStatus.closed = 2

-- `===` on statuses.
abbrev pub is_poll : PollStatus → PollStatus → Bool
is_poll a b = status_tag a == status_tag b

abbrev pub poll_id : Poll → ℕ
poll_id p = p.id

unfoldable pub find_poll : ℕ → List Poll → Option Poll
find_poll = find_by poll_id

unfoldable pub update_poll : ℕ → (Poll → Poll) → PollDb → PollDb
update_poll id f db = record db { polls = update_by poll_id id f db.polls }

abbrev pub in_space : ℕ → Option Poll → Option Poll
in_space space none = none
in_space space (some p) = if p.space_id == space then some p else none

-- `loadPollInSpace`, and the 404 that each of its callers answers.
abbrev pub load_poll : ℕ → ℕ → Polls Poll
load_poll space id = do
  found ← gets (λ (db : PollDb). find_poll id db.polls)
  or_raise (in_space space found) (app_error 404 Code.not_found)

abbrev pub closed_row : ℕ → Poll → Poll
closed_row now p = record p { status = PollStatus.closed; closed_at = some now }

abbrev pub is_over : ℕ → Poll → Bool
is_over now p = is_poll p.status PollStatus.active && ltb p.deadline now

-- The row is closed; the object at hand only gets the status.
unfoldable pub auto_close : ℕ → Poll → Polls Poll
auto_close now p =
    if is_over now p
    then modify (update_poll p.id (closed_row now))
      >> pure (record p { status = PollStatus.closed })
    else pure p
