-- ===== src/Poll/Once.antt =====
-- The votes of a user in a category (`vote_tx` is the transaction of the route that casts votes
-- in src/routes/polls.ts).
use duevy_be.Base.{
  ℕ, ◌+◌, ◌≤◌, ◌≡◌, refl, true, false, ◌&&◌, ◌==◌, mem?, map, sum_by, if◌then◌else◌, List, [], ◌∷◌,
  ◌++◌, Bool-cases, inl, inr, arith,
}
use duevy_be.Poll.{PollVote, PollDb, update_poll}
use duevy_be.Poll.Vote.{
  VoteSelection, vote_row, apply_poll_votes, vote_tx, has_voted, categories_of, single, distinct,
  cast_in, add_votes,
}
use duevy_be.Poll.Tally.{bump_all-votes}

-- In each category each user has cast one vote at most.
abbrev pub IsOnce : List PollVote → Type 0
IsOnce votes = (user category : ℕ) → cast_in user category votes ≤ 1

-- The selections of a category.
abbrev picked : ℕ → List VoteSelection → ℕ
picked category = sum_by (λ (s : VoteSelection). if s.category_id == category then 1 else 0)

picked_none :
    (k : ℕ) (sels : List VoteSelection) → mem? k (categories_of sels) ≡ false → picked k sels ≡ 0
picked_none k [] h = refl
picked_none k (s ∷ sels) h = ground (arith, picked_none k sels)

picked_once :
    (k : ℕ) (sels : List VoteSelection) → distinct (categories_of sels) ≡ true → picked k sels ≤ 1
unfolding distinct
picked_once k [] h = omega arith
picked_once k (s ∷ sels) h = elim (Bool-cases (s.category_id == k)) [
  | inl is ↦ ground (arith, picked_none s.category_id sels)
  | inr other ↦ ground (arith, picked_once k sels)
]

cast_in-add :
    (user k voter reference : ℕ) (sels : List VoteSelection) (votes : List PollVote)
    → cast_in user k (map (vote_row voter 0 reference) (map single sels) ++ votes)
      ≡ (if voter == user then picked k sels else 0) + cast_in user k votes
cast_in-add user k voter reference [] votes = ground arith
cast_in-add user k voter reference (s ∷ sels) votes =
    ground (arith, cast_in-add user k voter reference sels votes)

cast_in-has_voted :
    (user k : ℕ) (cats : List ℕ) (votes : List PollVote)
    → has_voted user cats votes ≡ false
    → mem? k cats ≡ true
    → cast_in user k votes ≡ 0
unfolding has_voted
cast_in-has_voted user k cats [] h m = refl
cast_in-has_voted user k cats (v ∷ votes) h m =
    elim (Bool-cases (v.user_id == user && (v.category_id == k))) [
      | inl hit ↦ absurd (ground arith)
      | inr miss ↦ ground (arith, cast_in-has_voted user k cats votes)
    ]

categories_of-single :
    (sels : List VoteSelection) → categories_of (map single sels) ≡ categories_of sels
categories_of-single [] = refl
categories_of-single (s ∷ sels) = ground (arith, categories_of-single sels)

apply_poll_votes-votes :
    (poll user amount reference : ℕ) (sels : List VoteSelection) (db : PollDb)
    → (apply_poll_votes poll user sels amount reference db).1.poll_votes
      ≡ map (vote_row user amount reference) sels ++ db.poll_votes
unfolding apply_poll_votes update_poll
apply_poll_votes-votes poll user amount reference sels db =
    bump_all-votes sels (add_votes (map (vote_row user amount reference) sels) db)

-- New votes of a user who had none in their categories.
voted-IsOnce :
    (voter reference : ℕ) (sels : List VoteSelection) (votes : List PollVote)
    → distinct (categories_of sels) ≡ true
    → has_voted voter (categories_of sels) votes ≡ false
    → IsOnce votes
    → IsOnce (map (vote_row voter 0 reference) (map single sels) ++ votes)
voted-IsOnce voter reference sels votes apart new once user k =
    let total = cast_in-add user k voter reference sels votes in
    let before = once user k in
    elim (Bool-cases (mem? k (categories_of sels))) [
      | inr unpicked ↦ ground (arith, total, before, picked_none k sels unpicked)
      | inl in_it ↦ elim (Bool-cases (voter == user)) [
        | inr other ↦ ground (arith, total, before)
        | inl same ↦
            let none_yet = cast_in-has_voted voter k (categories_of sels) votes new in_it in
            ground (arith, total, before, picked_once k sels apart, none_yet)
      ]
    ]

-- The transaction writes the votes unless the user has one already.
pub vote_tx_lem :
    (poll user reference : ℕ) (sels : List VoteSelection) (db : PollDb)
    → (vote_tx poll user reference sels db).1 ≡ (
        if has_voted user (categories_of sels) db.poll_votes
        then db
        else (apply_poll_votes poll user sels 0 reference db).1)
unfolding vote_tx apply_poll_votes
vote_tx_lem poll user reference sels db = ground arith

pub vote_tx-IsOnce :
    (poll user reference : ℕ) (sels : List VoteSelection) (db : PollDb)
    → distinct (categories_of sels) ≡ true
    → IsOnce db.poll_votes
    → IsOnce (vote_tx poll user reference (map single sels) db).1.poll_votes
vote_tx-IsOnce poll user reference sels db apart once =
    let same = categories_of-single sels in
    let is = vote_tx_lem poll user reference (map single sels) db in
    elim (Bool-cases (has_voted user (categories_of sels) db.poll_votes)) [
      | inl voted ↦ rw (is, same, voted) once
      | inr new ↦
          let rows = apply_poll_votes-votes poll user 0 reference (map single sels) db in
          rw (is, same, new, rows) (voted-IsOnce user reference sels db.poll_votes apart new once)
    ]
