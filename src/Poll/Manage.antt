-- ===== src/Poll/Manage.antt =====
-- What a rep does with a poll (the rep-facing router of src/routes/polls.ts): creating, editing,
-- publishing and closing it. Bodies have passed the schema; the ids that the database gives to
-- categories and nominees stand in the body. The audit entry of a publication is left out.
use duevy_be.Base.{
  ℕ, Bool, true, false, ◌&&◌, ◌||◌, ◌==◌, leb, ltb, not, is_some, map, find?, length, get_or,
  if◌then◌else◌, Option, none, some, List, [], ◌∷◌, ◌++◌,
}
use duevy_be.Base.Results.{app_error, Code}
use duevy_be.Base.Stateful.{pure, gets, or_raise, ◌>>=◌, ◌>>◌, raise_if, modify}
use duevy_be.Poll.{
  PollStatus, Nominee, PollCategory, Poll, PollDb, Polls, is_poll, update_poll, load_poll,
  closed_row,
}
use duevy_be.Poll.Slug.{same_slug, slugify, unique_slug}

pub record NewNominee : Type 0 where
  pub id : ℕ
  pub name : ℕ
  pub image_url : Option ℕ

pub record NewCategory : Type 0 where
  pub id : ℕ
  pub title : ℕ
  pub image_url : Option ℕ
  pub nominees : List NewNominee

pub record NewPoll : Type 0 where
  pub title : ℕ
  pub title_text : List ℕ
  pub description : Option ℕ
  pub deadline : ℕ
  pub members_only : Bool
  pub paid : Bool
  pub amount_per_vote : Option ℕ
  pub cover_image_url : Option ℕ
  pub theme_color : Option ℕ
  pub categories : List NewCategory
  pub publish : Bool

abbrev pub all_categories : List NewCategory → Bool
all_categories [] = true
all_categories (c ∷ cs) = leb 2 (length c.nominees) && all_categories cs

-- The schema's rules that are not about the length of a text: at least one category, at least two
-- nominees in each, an amount where votes are paid, and a deadline ahead.
unfoldable pub is_valid_poll : ℕ → NewPoll → Bool
is_valid_poll now d =
    leb 1 (length d.categories)
    && (all_categories d.categories
        && ((not d.paid || ltb 0 (get_or d.amount_per_vote 0)) && ltb now d.deadline))

abbrev pub nominee_of : NewNominee → Nominee
nominee_of n = record {
  id = n.id;
  name = n.name;
  image_url = n.image_url;
  bio = none;
  code = none;
  votes = 0;
}

abbrev pub category_of : NewCategory → PollCategory
category_of c = record {
  id = c.id;
  title = c.title;
  image_url = c.image_url;
  nominees = map nominee_of c.nominees;
}

abbrev pub new_poll : ℕ → ℕ → ℕ → List ℕ → NewPoll → Poll
new_poll now id space slug d = record {
  id = id;
  space_id = space;
  title = d.title;
  description = d.description;
  deadline = d.deadline;
  status = if d.publish then PollStatus.active else PollStatus.draft;
  members_only = d.members_only;
  paid = d.paid;
  amount_per_vote = if d.paid then get_or d.amount_per_vote 0 else 0;
  slug = slug;
  total_votes = 0;
  revenue = 0;
  cover_image_url = d.cover_image_url;
  theme_color = d.theme_color;
  published_at = if d.publish then some now else none;
  closed_at = none;
  categories = map category_of d.categories;
}

abbrev pub slug_in_use : List Poll → List ℕ → Bool
slug_in_use polls s = is_some (find? (λ (p : Poll). same_slug p.slug s) polls)

-- The id, the random variants of the slug and the last one come from outside.
unfoldable pub create_poll : ℕ → ℕ → ℕ → List (List ℕ) → List ℕ → NewPoll → Polls Poll
create_poll now id space variants last d = do
  raise_if (not (is_valid_poll now d)) (app_error 400 Code.validation_error)
  slug ←
      gets
        (λ (db : PollDb). unique_slug (slug_in_use db.polls) (slugify d.title_text) variants last)
  modify (λ (db : PollDb). record db { polls = new_poll now id space slug d ∷ db.polls })
  pure (new_poll now id space slug d)

-- A field of a patch: it is absent, or it has a value.
abbrev pub patched {ℓ} : {A : Type ℓ} → A → Option A → A
patched old none = old
patched old (some new) = new

pub record PollPatch : Type 0 where
  pub title : Option ℕ
  pub description : Option ℕ
  pub deadline : Option ℕ
  pub members_only : Option Bool
  pub paid : Option Bool
  pub amount_per_vote : Option ℕ
  pub cover_image_url : Option (Option ℕ)
  pub theme_color : Option (Option ℕ)

abbrev described : Option ℕ → Option ℕ → Option ℕ
described old none = old
described old (some new) = some new

-- Cover and colour can change at any time before the poll is closed.
abbrev pub with_looks : PollPatch → Poll → Poll
with_looks d p = record p {
  cover_image_url = patched p.cover_image_url d.cover_image_url;
  theme_color = patched p.theme_color d.theme_color;
}

abbrev pub active_row : PollPatch → Poll → Poll
active_row d p = with_looks d (record p {
  title = patched p.title d.title;
  description = described p.description d.description;
  deadline = patched p.deadline d.deadline;
})

abbrev pub draft_row : PollPatch → Poll → Poll
draft_row d p = with_looks d (record p {
  title = patched p.title d.title;
  description = described p.description d.description;
  members_only = patched p.members_only d.members_only;
  paid = patched p.paid d.paid;
  deadline = patched p.deadline d.deadline;
  amount_per_vote = patched p.amount_per_vote d.amount_per_vote;
})

abbrev pub changes_structure : PollPatch → Bool
changes_structure d = is_some d.members_only || (is_some d.paid || is_some d.amount_per_vote)

abbrev pub not_later : ℕ → Option ℕ → Bool
not_later old none = false
not_later old (some next) = leb next old

unfoldable pub patch_row : PollPatch → Poll → Polls Poll
patch_row d p = do
  raise_if (is_poll p.status PollStatus.closed) (app_error 409 Code.poll_closed)
  raise_if (is_poll p.status PollStatus.active && changes_structure d)
      (app_error 409 Code.poll_structure_locked)
  raise_if (is_poll p.status PollStatus.active && not_later p.deadline d.deadline)
      (app_error 409 Code.poll_structure_locked)
  let f = if is_poll p.status PollStatus.active then active_row d else draft_row d in
      modify (update_poll p.id f) >> pure (f p)

unfoldable pub patch_poll : ℕ → ℕ → PollPatch → Polls Poll
unfolding patch_row
patch_poll space id d = load_poll space id >>= patch_row d

abbrev pub published_row : ℕ → Poll → Poll
published_row now p = record p { status = PollStatus.active; published_at = some now }

unfoldable pub publish_row : ℕ → Poll → Polls Poll
publish_row now p = do
  raise_if (not (is_poll p.status PollStatus.draft)) (app_error 409 Code.invalid_transition)
  modify (update_poll p.id (published_row now))
  pure (published_row now p)

unfoldable pub publish_poll : ℕ → ℕ → ℕ → Polls Poll
unfolding publish_row
publish_poll now space id = load_poll space id >>= publish_row now

-- Closing a closed poll changes nothing.
unfoldable pub close_row : ℕ → Poll → Polls Poll
close_row now p =
    if is_poll p.status PollStatus.closed
    then pure p
    else modify (update_poll p.id (closed_row now)) >> pure (closed_row now p)

unfoldable pub close_poll : ℕ → ℕ → ℕ → Polls Poll
unfolding close_row
close_poll now space id = load_poll space id >>= close_row now

pub record NomineePatch : Type 0 where
  pub image_url : Option (Option ℕ)
  pub bio : Option (Option ℕ)
  pub code : Option (Option ℕ)

abbrev pub patched_nominee : NomineePatch → Nominee → Nominee
patched_nominee d n = record n {
  image_url = patched n.image_url d.image_url;
  bio = patched n.bio d.bio;
  code = patched n.code d.code;
}

-- `nominee.update({ where: { id } })`, in every category of every poll.
abbrev pub on_nominee : ℕ → (Nominee → Nominee) → Nominee → Nominee
on_nominee id f n = if n.id == id then f n else n

abbrev pub in_category : (Nominee → Nominee) → PollCategory → PollCategory
in_category f c = record c { nominees = map f c.nominees }

abbrev pub in_poll : (Nominee → Nominee) → Poll → Poll
in_poll f p = record p { categories = map (in_category f) p.categories }

unfoldable pub update_nominee : ℕ → (Nominee → Nominee) → PollDb → PollDb
update_nominee id f db = record db { polls = map (in_poll (on_nominee id f)) db.polls }

-- `poll.categories.flatMap((c) => c.nominees)`
unfoldable pub all_nominees : List PollCategory → List Nominee
all_nominees [] = []
all_nominees (c ∷ cs) = c.nominees ++ all_nominees cs

unfoldable pub patch_nominee : ℕ → ℕ → ℕ → NomineePatch → Polls Poll
patch_nominee space id nominee d = do
  poll ← load_poll space id
  found ←
      or_raise (find? (λ (n : Nominee). n.id == nominee) (all_nominees poll.categories))
        (app_error 404 Code.not_found)
  modify (update_nominee found.id (patched_nominee d))
  load_poll space poll.id

abbrev pub with_image : Option ℕ → ℕ → PollCategory → PollCategory
with_image image id c = if c.id == id then record c { image_url = image } else c

unfoldable pub update_category : Option ℕ → ℕ → PollDb → PollDb
update_category image id db = record db {
  polls =
      map (λ (p : Poll). record p { categories = map (with_image image id) p.categories }) db.polls;
}

unfoldable pub patch_category : ℕ → ℕ → ℕ → Option ℕ → Polls Poll
patch_category space id category image = do
  poll ← load_poll space id
  found ←
      or_raise (find? (λ (c : PollCategory). c.id == category) poll.categories)
        (app_error 404 Code.not_found)
  modify (update_category image found.id)
  load_poll space poll.id
