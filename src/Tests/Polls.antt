-- ===== src/Tests/Polls.antt =====
-- A poll of two nominees (src/routes/polls.ts).
use duevy_be.Base.{ℕ, ◌≤◌, ◌≡◌, refl, false, none, some, List, [], ◌∷◌, arith}
use duevy_be.Base.Results.{ok}
use duevy_be.Base.Table.{find_by, update_by}
use duevy_be.Poll.{Nominee, Poll, PollDb, PollStatus, find_poll, update_poll}
use duevy_be.Poll.Manage.{PollPatch, patch_row, patch_poll, active_row}
use duevy_be.Poll.Tally.{tally}
use duevy_be.Poll.Runs.{IsSound, Move, cast, close, run, run-IsSound}
use duevy_be.Poll.Locked.{patch_poll-active}

abbrev nominee : ℕ → Nominee
nominee id = record { id = id; name = 1; image_url = none; bio = none; code = none; votes = 0 }

abbrev best : Poll
best = record {
  id = 1;
  space_id = 2;
  title = 3;
  description = none;
  deadline = 1000;
  status = PollStatus.active;
  members_only = false;
  paid = false;
  amount_per_vote = 0;
  slug = 100 ∷ [];
  total_votes = 0;
  revenue = 0;
  cover_image_url = none;
  theme_color = none;
  published_at = some 5;
  closed_at = none;
  categories =
      record { id = 10; title = 4; image_url = none; nominees = nominee 11 ∷ nominee 12 ∷ [] } ∷ [];
}

abbrev opened : PollDb
opened = record { polls = best ∷ []; poll_votes = []; memberships = [] }

opened-IsSound : IsSound opened
unfolding tally
opened-IsSound = record {
  tallied = (((refl, (refl, tt)), tt), tt);
  once = λ user category. omega arith;
}

-- Two voters, one of them twice.
abbrev election : List (ℕ × Move)
election =
    (50, cast 7 70 (100 ∷ []) (record { category_id = 10; nominee_id = 11; quantity = 1 } ∷ []))
    ∷ (60, cast 8 80 (100 ∷ []) (record { category_id = 10; nominee_id = 11; quantity = 5 } ∷ []))
    ∷ (70, cast 7 71 (100 ∷ []) (record { category_id = 10; nominee_id = 12; quantity = 1 } ∷ []))
    ∷ (80, close 2 1)
    ∷ []

run-IsSound_example : IsSound (run election opened)
run-IsSound_example = run-IsSound election opened opened-IsSound

abbrev longer : PollPatch
longer = record {
  title = none;
  description = none;
  deadline = some 2000;
  members_only = none;
  paid = none;
  amount_per_vote = none;
  cover_image_url = none;
  theme_color = none;
}

found_best : find_poll 1 opened.polls ≡ some best
unfolding find_poll find_by
found_best = refl

extended : (patch_poll 2 1 longer opened).0 ≡ ok (active_row longer best)
unfolding patch_poll patch_row find_poll find_by update_poll update_by
extended = refl

patch_poll-active_example :
    (find_poll 1 (patch_poll 2 1 longer opened).1.polls ≡ some (active_row longer best))
    × (◌≡◌ false best.members_only)
    × (◌≡◌ false best.paid)
    × (◌≡◌ 0 best.amount_per_vote)
    × (◌≡◌ PollStatus.active best.status)
    × (◌≡◌ (100 ∷ []) best.slug)
    × (◌≡◌ 0 best.total_votes)
    × ((active_row longer best).categories ≡ best.categories)
    × (1000 ≤ 2000)
patch_poll-active_example = patch_poll-active 2 1 longer best opened found_best refl extended
