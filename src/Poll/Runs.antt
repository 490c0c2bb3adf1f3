-- ===== src/Poll/Runs.antt =====
-- Any order of votes, views, edits, publications and closings (src/routes/polls.ts). Each is one step:
-- the transaction of a vote is atomic, and the others write one row.
use duevy_be.Base.{
  ℕ, ◌≡◌, refl, Bool, true, false, ◌&&◌, ◌==◌, not, find?, map, if◌then◌else◌, Option, none, some,
  List, [], ◌∷◌, All, All-map, Bool-cases, inl, inr, arith,
}
use duevy_be.Base.Results.{app_error, Code}
use duevy_be.Base.Stateful.{modify, ◌>>=◌}
use duevy_be.Base.Stateful.Keeps.{
  Keeps, pure-Keeps, raise_if-Keeps, or_raise-Keeps, modify-Keeps, if-Keeps, bind-Keeps, then-Keeps,
  gets-Keeps, guarded-Keeps, read-Keeps,
}
use duevy_be.Poll.{
  Nominee, PollCategory, Poll, PollStatus, PollDb, Polls, update_poll, auto_close, closed_row,
  is_over, is_poll, load_poll, find_poll, in_space,
}
use duevy_be.Poll.Manage.{
  PollPatch, NomineePatch, patch_row, patch_poll, publish_row, publish_poll, close_row, close_poll,
  patch_nominee, patch_category, update_nominee, update_category, on_nominee, patched_nominee,
  with_image, active_row, draft_row, published_row, changes_structure, not_later, all_nominees,
}
use duevy_be.Poll.Vote.{
  VoteSelection, vote_tx, vote_on, cast_votes, view_poll, valid_selections, distinct, single,
  categories_of, shown, find_slug, all_selected, is_member, has_voted, voter_view,
}
use duevy_be.Poll.Tally.{
  tally, IsTallied, Counted, CountedPoll, apply_poll_votes-Keeps, update_poll-IsTallied,
  map-AreCounted,
}
use duevy_be.Poll.Once.{IsOnce, vote_tx-IsOnce, vote_tx_lem}

-- The tallies are the votes, and nobody has two votes in a category.
pub record IsSound (db : PollDb) : Type 0 where
  pub tallied : IsTallied db
  pub once : IsOnce db.poll_votes

update-Keeps :
    (id : ℕ) (f : Poll → Poll)
    → ((p : Poll) → (f p).categories ≡ p.categories)
    → Keeps IsSound (modify (update_poll id f))
unfolding update_poll
update-Keeps id f same =
    modify-Keeps (update_poll id f)
      λ db h. record { tallied = update_poll-IsTallied id f db same h.tallied; once = h.once }

nominee-Keeps :
    (id : ℕ) (d : NomineePatch) → Keeps IsSound (modify (update_nominee id (patched_nominee d)))
unfolding update_nominee
nominee-Keeps id d = modify-Keeps (update_nominee id (patched_nominee d)) λ db h. record {
  tallied =
      map-AreCounted _ _ (on_nominee id (patched_nominee d)) db.polls (λ n is. ground arith)
        h.tallied;
  once = h.once;
}

category-Keeps : (image : Option ℕ) (id : ℕ) → Keeps IsSound (modify (update_category image id))
unfolding update_category
category-Keeps image id = modify-Keeps (update_category image id) λ db h. record {
  tallied =
      All-map (CountedPoll (λ n. tally n db.poll_votes)) _ _ db.polls
        (λ p. All-map _ _ (with_image image id) p.categories (pictured db)) h.tallied;
  once = h.once;
}
  where
    pictured :
        (db : PollDb) (c : PollCategory)
        → All (Counted (λ n. tally n db.poll_votes)) c.nominees
        → All (Counted (λ n. tally n db.poll_votes)) (with_image image id c).nominees
    pictured db c is = elim (Bool-cases (c.id == id)) [
      | inl here ↦ rw here is
      | inr other ↦ rw other is
    ]

found-Keeps : (space id : ℕ) → Keeps IsSound (load_poll space id)
found-Keeps space id =
    gets-Keeps (λ (db : PollDb). find_poll id db.polls) _
      λ o. or_raise-Keeps (in_space space o) (app_error 404 Code.not_found)

load-Keeps :
    {A : Type 0} (space id : ℕ) (f : Poll → Polls A)
    → ((p : Poll) → Keeps IsSound (f p))
    → Keeps IsSound (load_poll space id >>= f)
load-Keeps space id f kf = bind-Keeps (load_poll space id) f (found-Keeps space id) kf

auto_close-Keeps : (now : ℕ) (p : Poll) → Keeps IsSound (auto_close now p)
unfolding auto_close
auto_close-Keeps now p =
    if-Keeps (is_over now p) _ _
      (then-Keeps _ _ (update-Keeps p.id (closed_row now) λ q. refl) (pure-Keeps _)) (pure-Keeps p)

patch-Keeps : (d : PollPatch) (p : Poll) → Keeps IsSound (patch_row d p)
unfolding patch_row
patch-Keeps d p =
    then-Keeps _ _
      (raise_if-Keeps (is_poll p.status PollStatus.closed) (app_error 409 Code.poll_closed))
      (then-Keeps _ _
        (raise_if-Keeps (is_poll p.status PollStatus.active && changes_structure d)
          (app_error 409 Code.poll_structure_locked))
        (then-Keeps _ _
          (raise_if-Keeps (is_poll p.status PollStatus.active && not_later p.deadline d.deadline)
            (app_error 409 Code.poll_structure_locked))
          (then-Keeps _ _
            (update-Keeps p.id _ (patched_categories (is_poll p.status PollStatus.active)))
            (pure-Keeps _))))
  where
    patched_categories :
        (b : Bool) (q : Poll)
        → ((if b then active_row d else draft_row d) q).categories ≡ q.categories
    patched_categories true q = refl
    patched_categories false q = refl

publish-Keeps : (now : ℕ) (p : Poll) → Keeps IsSound (publish_row now p)
unfolding publish_row
publish-Keeps now p =
    then-Keeps _ _
      (raise_if-Keeps (not (is_poll p.status PollStatus.draft))
        (app_error 409 Code.invalid_transition))
      (then-Keeps _ _ (update-Keeps p.id (published_row now) λ q. refl)
        (pure-Keeps (published_row now p)))

close-Keeps : (now : ℕ) (p : Poll) → Keeps IsSound (close_row now p)
unfolding close_row
close-Keeps now p =
    if-Keeps (is_poll p.status PollStatus.closed) _ _ (pure-Keeps p)
      (then-Keeps _ _ (update-Keeps p.id (closed_row now) λ q. refl) (pure-Keeps _))

vote_tx-Keeps :
    (poll user reference : ℕ) (sels : List VoteSelection)
    → distinct (categories_of sels) ≡ true
    → Keeps IsSound (vote_tx poll user reference (map single sels))
vote_tx-Keeps poll user reference sels apart = record {
  keeps = λ db h. record {
    tallied = vote_tx-IsTallied poll user reference (map single sels) db h.tallied;
    once = vote_tx-IsOnce poll user reference sels db apart h.once;
  };
}
  where
    vote_tx-IsTallied :
        (poll user reference : ℕ) (sels : List VoteSelection) (db : PollDb)
        → IsTallied db
        → IsTallied (vote_tx poll user reference sels db).1
    vote_tx-IsTallied poll user reference sels db h =
        let is = vote_tx_lem poll user reference sels db in
        elim (Bool-cases (has_voted user (categories_of sels) db.poll_votes)) [
          | inl voted ↦ rw (is, voted) h
          | inr new ↦ rw (is, new) ((apply_poll_votes-Keeps poll user sels 0 reference).keeps db h)
        ]

vote_on-Keeps :
    (user reference : ℕ) (sels : List VoteSelection) (p : Poll)
    → distinct (categories_of sels) ≡ true
    → Keeps IsSound (vote_on user reference sels p)
unfolding vote_on
vote_on-Keeps user reference sels p apart =
    then-Keeps _ _
      (raise_if-Keeps (not (is_poll p.status PollStatus.active)) (app_error 409 Code.poll_closed))
      (then-Keeps _ _
        (raise_if-Keeps (not (all_selected p.categories sels))
          (app_error 400 Code.validation_error))
        (gets-Keeps (is_member user p.space_id) _ λ member.
          then-Keeps _ _
            (raise_if-Keeps (p.members_only && not member) (app_error 403 Code.members_only))
            (then-Keeps _ _ (raise_if-Keeps p.paid (app_error 501 Code.paid_voting_unavailable)) (
              bind-Keeps _ _ (vote_tx-Keeps p.id user reference sels apart)
                λ counted. pure-Keeps reference))))

valid_selections-distinct :
    (sels : List VoteSelection)
    → not (valid_selections sels) ≡ false
    → distinct (categories_of sels) ≡ true
unfolding valid_selections
valid_selections-distinct sels h = ground arith

cast-Keeps :
    (now user reference : ℕ) (slug : List ℕ) (sels : List VoteSelection)
    → Keeps IsSound (cast_votes now user reference slug sels)
unfolding cast_votes
cast-Keeps now user reference slug sels =
    guarded-Keeps (not (valid_selections sels)) (app_error 400 Code.validation_error) _ λ valid.
      gets-Keeps (λ (db : PollDb). shown (find_slug slug db.polls)) _
        λ found. bind-Keeps _ _ (or_raise-Keeps found (app_error 404 Code.not_found)) λ p.
          bind-Keeps _ _ (auto_close-Keeps now p)
            λ q. vote_on-Keeps user reference sels q (valid_selections-distinct sels valid)

view-Keeps :
    (now : ℕ) (viewer : Option ℕ) (slug : List ℕ) → Keeps IsSound (view_poll now viewer slug)
unfolding view_poll
view-Keeps now viewer slug =
    gets-Keeps (λ (db : PollDb). shown (find_slug slug db.polls)) _
      λ found. bind-Keeps _ _ (or_raise-Keeps found (app_error 404 Code.not_found)) λ p.
        bind-Keeps _ _ (auto_close-Keeps now p) λ q.
          gets-Keeps (λ db. elim viewer [ none ↦ false | some user ↦ is_member user q.space_id db ])
            _
            λ member.
              then-Keeps _ _
                (raise_if-Keeps (q.members_only && not member) (app_error 403 Code.members_only))
                (read-Keeps (λ (db : PollDb). voter_view viewer q db.poll_votes))

edit_nominee-Keeps :
    (space id nominee : ℕ) (d : NomineePatch) → Keeps IsSound (patch_nominee space id nominee d)
unfolding patch_nominee
edit_nominee-Keeps space id nominee d = load-Keeps space id _ λ p.
    bind-Keeps _ _
      (or_raise-Keeps (find? (λ (n : Nominee). n.id == nominee) (all_nominees p.categories))
        (app_error 404 Code.not_found))
      λ n. then-Keeps _ _ (nominee-Keeps n.id d) (found-Keeps space p.id)

edit_category-Keeps :
    (space id category : ℕ) (image : Option ℕ)
    → Keeps IsSound (patch_category space id category image)
unfolding patch_category
edit_category-Keeps space id category image = load-Keeps space id _ λ p.
    bind-Keeps _ _
      (or_raise-Keeps (find? (λ (c : PollCategory). c.id == category) p.categories)
        (app_error 404 Code.not_found))
      λ c. then-Keeps _ _ (category-Keeps image c.id) (found-Keeps space p.id)

-- A request on polls that are there.
pub data Move : Type 0 where
  cast : ℕ → ℕ → List ℕ → List VoteSelection → Move
  view : Option ℕ → List ℕ → Move
  patch : ℕ → ℕ → PollPatch → Move
  publish : ℕ → ℕ → Move
  close : ℕ → ℕ → Move
  edit_nominee : ℕ → ℕ → ℕ → NomineePatch → Move
  edit_category : ℕ → ℕ → ℕ → Option ℕ → Move

unfoldable pub apply : ℕ → Move → PollDb → PollDb
apply now (cast user reference slug sels) db = (cast_votes now user reference slug sels db).1
apply now (view viewer slug) db = (view_poll now viewer slug db).1
apply now (patch space id d) db = (patch_poll space id d db).1
apply now (publish space id) db = (publish_poll now space id db).1
apply now (close space id) db = (close_poll now space id db).1
apply now (edit_nominee space id nominee d) db = (patch_nominee space id nominee d db).1
apply now (edit_category space id category image) db = (patch_category space id category image db).1

-- Each request with its time.
unfoldable pub run : List (ℕ × Move) → PollDb → PollDb
run [] db = db
run ((now, m) ∷ moves) db = run moves (apply now m db)

apply-IsSound : (now : ℕ) (m : Move) (db : PollDb) → IsSound db → IsSound (apply now m db)
unfolding apply patch_poll publish_poll close_poll
apply-IsSound now (cast user reference slug sels) db h =
    (cast-Keeps now user reference slug sels).keeps db h
apply-IsSound now (view viewer slug) db h = (view-Keeps now viewer slug).keeps db h
apply-IsSound now (patch space id d) db h =
    (load-Keeps space id (patch_row d) (patch-Keeps d)).keeps db h
apply-IsSound now (publish space id) db h =
    (load-Keeps space id (publish_row now) (publish-Keeps now)).keeps db h
apply-IsSound now (close space id) db h =
    (load-Keeps space id (close_row now) (close-Keeps now)).keeps db h
apply-IsSound now (edit_nominee space id nominee d) db h =
    (edit_nominee-Keeps space id nominee d).keeps db h
apply-IsSound now (edit_category space id category image) db h =
    (edit_category-Keeps space id category image).keeps db h

-- Start where each nominee's tally is the number of votes for it and no user has two votes in a
-- category. The same holds after any sequence of votes, views, edits, publications and closings.
pub run-IsSound : (moves : List (ℕ × Move)) (db : PollDb) → IsSound db → IsSound (run moves db)
unfolding run
run-IsSound [] db h = h
run-IsSound ((now, m) ∷ moves) db h = run-IsSound moves (apply now m db) (apply-IsSound now m db h)
