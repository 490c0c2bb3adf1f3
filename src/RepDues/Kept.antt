-- ===== src/RepDues/Kept.antt =====
-- The operations of src/routes/repDues.ts on a due that somebody has paid.
use duevy_be.Base.{
  ℕ, ◌≡◌, refl, true, false, ◌==◌, not, keep, get_or, some, List, [], ◌∷◌, Bool-cases, Option-cases,
  inl, inr, arith,
}
use duevy_be.Base.Results.{Result-cases}
use duevy_be.Base.Table.{find_by, find_by-update_by, find_by-key}
use duevy_be.Store.{Db, Due, DueStatus}
use duevy_be.Store.Action.{Action, ◌>>=◌}
use duevy_be.RepDues.{
  find_due, update_due, due_id, load_due, is_due_status, has_payments, DuePatch, patch_row,
  patch_due, patched_due, changes_amount, amount_fits, publish_row, publish_due, close_row,
  close_due, with_status, delete_row, delete_due, without_due, reassign_row, reassign_due,
  assigned_to,
}

-- The due is there with this amount, it is no draft, and somebody paid it.
pub record IsPaidFor (id amount : ℕ) (db : Db) : Type 0 where
  pub row : Due
  pub found : find_due id db.dues ≡ some row
  pub same : row.amount ≡ amount
  pub opened : is_due_status row.status DueStatus.draft ≡ false
  pub paid : has_payments id db.due_payments ≡ true

module _ (id amount : ℕ) where
  -- An update of the row that was loaded.
  updated-IsPaidFor :
      (d : Due) (f : Due → Due) (db : Db)
      → find_due d.id db.dues ≡ some d
      → ((r : Due) → (f r).id ≡ r.id)
      → (d.id ≡ id
          → is_due_status d.status DueStatus.draft ≡ false
          → ((f d).amount ≡ d.amount) × (is_due_status (f d).status DueStatus.draft ≡ false))
      → IsPaidFor id amount db
      → IsPaidFor id amount (update_due d.id f db)
  unfolding find_due update_due
  updated-IsPaidFor d f db there keeps fine h =
      let law = find_by-update_by due_id id d.id f db.dues keeps in
      let found = h.found in
      elim (Bool-cases (d.id == id)) [
        | inr other ↦ record {
          row = h.row;
          found = ground (arith, law, found);
          same = h.same;
          opened = h.opened;
          paid = h.paid;
        }
        | inl here ↦
            let at : d.id ≡ id = ground arith in
            let is : h.row ≡ d = ground (arith, found, there, at) in
            let (same, opened) = fine at (ground (arith, is, h.opened)) in
            record {
              row = f d;
              found = ground (arith, law, found, is);
              same = ground (arith, same, is, h.same);
              opened = opened;
              paid = h.paid;
            }
      ]

  -- What a handler does after its look-up.
  loaded-IsPaidFor :
      {A : Type 0} (space k : ℕ) (f : Due → Action A) (db : Db)
      → ((d : Due) → find_due d.id db.dues ≡ some d → IsPaidFor id amount (f d db).1)
      → IsPaidFor id amount db
      → IsPaidFor id amount ((load_due space k >>= f) db).1
  loaded-IsPaidFor space k f db each h = elim (Option-cases (find_due k db.dues)) [
    | inl gone ↦ let is : ((load_due space k >>= f) db).1 ≡ db = ground arith in rw is h
    | inr (d, found) ↦ elim (Bool-cases (d.space_id == space)) [
      | inr elsewhere ↦ let is : ((load_due space k >>= f) db).1 ≡ db = ground arith in rw is h
      | inl here ↦
          let is : ((load_due space k >>= f) db).1 ≡ (f d db).1 = ground arith in
          let key : d.id ≡ k = unfold find_due in find_by-key due_id k db.dues {a = d} found in
          rw is (each d (ground (arith, found, key)))
    ]
  ]

  patch_row-IsPaidFor :
      (patch : DuePatch) (d : Due) (db : Db)
      → find_due d.id db.dues ≡ some d
      → IsPaidFor id amount db
      → IsPaidFor id amount (patch_row patch d db).1
  unfolding patch_row
  patch_row-IsPaidFor patch d db there h = elim (Result-cases (patch_row patch d db).0) [
    | inr (e, out) ↦ let is : (patch_row patch d db).1 ≡ db = ground arith in rw is h
    | inl (q, done) ↦
        let is : (patch_row patch d db).1 ≡ update_due d.id (patched_due patch) db = ground arith in
        let paid = h.paid in
        rw is (
          updated-IsPaidFor d (patched_due patch) db there (λ r. refl)
            (λ at opened. (kept_amount patch d (ground (arith, paid, at)), opened)) h)
  ]
    where
      kept_amount :
          (patch : DuePatch) (d : Due)
          → changes_amount patch d ≡ false
          → get_or patch.amount d.amount ≡ d.amount
      kept_amount patch d h = elim (Option-cases patch.amount) [
        | inl absent ↦ ground arith
        | inr (a, given) ↦ ground arith
      ]

  publish_row-IsPaidFor :
      (space : ℕ) (d : Due) (db : Db)
      → find_due d.id db.dues ≡ some d
      → IsPaidFor id amount db
      → IsPaidFor id amount (publish_row space d db).1
  unfolding publish_row
  publish_row-IsPaidFor space d db there h = elim (Result-cases (publish_row space d db).0) [
    | inr (e, out) ↦ let is : (publish_row space d db).1 ≡ db = ground arith in rw is h
    | inl (q, done) ↦
        let is : (publish_row space d db).1 ≡ update_due d.id (with_status DueStatus.active) db =
          ground arith in
        rw is (
          updated-IsPaidFor d (with_status DueStatus.active) db there (λ r. refl)
            (λ at opened. (refl, refl)) h)
  ]

  close_row-IsPaidFor :
      (d : Due) (db : Db)
      → find_due d.id db.dues ≡ some d
      → IsPaidFor id amount db
      → IsPaidFor id amount (close_row d db).1
  unfolding close_row
  close_row-IsPaidFor d db there h = elim (Result-cases (close_row d db).0) [
    | inr (e, out) ↦ let is : (close_row d db).1 ≡ db = ground arith in rw is h
    | inl (q, done) ↦
        let is : (close_row d db).1 ≡ update_due d.id (with_status DueStatus.closed) db =
          ground arith in
        rw is (
          updated-IsPaidFor d (with_status DueStatus.closed) db there (λ r. refl)
            (λ at opened. (refl, refl)) h)
  ]

  reassign_row-IsPaidFor :
      (space target : ℕ) (d : Due) (db : Db)
      → find_due d.id db.dues ≡ some d
      → IsPaidFor id amount db
      → IsPaidFor id amount (reassign_row space target d db).1
  unfolding reassign_row
  reassign_row-IsPaidFor space target d db there h =
      elim (Result-cases (reassign_row space target d db).0) [
        | inr (e, out) ↦ let is : (reassign_row space target d db).1 ≡ db = ground arith in rw is h
        | inl (q, done) ↦
            let is : (reassign_row space target d db).1 ≡ update_due d.id (assigned_to target) db =
              ground arith in
            rw is (
              updated-IsPaidFor d (assigned_to target) db there (λ r. refl)
                (λ at opened. (refl, opened)) h)
      ]

  -- The rows of other ids stay when one is deleted.
  find_by-keep :
      (j k : ℕ) (ds : List Due)
      → (j == k) ≡ false
      → find_by due_id k (keep (λ (d : Due). not (d.id == j)) ds) ≡ find_by due_id k ds
  unfolding find_by
  find_by-keep j k [] h = refl
  find_by-keep j k (d ∷ ds) h = ground (arith, find_by-keep j k ds h)

  delete_row-IsPaidFor :
      (d : Due) (db : Db)
      → find_due d.id db.dues ≡ some d
      → IsPaidFor id amount db
      → IsPaidFor id amount (delete_row d db).1
  unfolding delete_row without_due find_due
  delete_row-IsPaidFor d db there h =
      let found = h.found in
      let opened = h.opened in
      elim (Bool-cases (is_due_status d.status DueStatus.draft)) [
        | inr kept ↦ let is : (delete_row d db).1 ≡ db = ground arith in rw is h
        | inl draft ↦ elim (Bool-cases (d.id == id)) [
          | inl here ↦
              let at : d.id ≡ id = ground arith in
              let is : h.row ≡ d = ground (arith, found, there, at) in
              absurd (ground (arith, is, opened))
          | inr other ↦
              let is : (delete_row d db).1 ≡ without_due d.id db = ground arith in
              rw is (record {
                row = h.row;
                found = ground (arith, found, find_by-keep d.id id db.dues other);
                same = h.same;
                opened = h.opened;
                paid = h.paid;
              })
        ]
      ]

-- A rep's request on the dues that are there.
pub data Move : Type 0 where
  patch : ℕ → ℕ → DuePatch → Move
  publish close delete : ℕ → ℕ → Move
  reassign : ℕ → ℕ → ℕ → Move

unfoldable pub apply : Move → Db → Db
apply (patch space id d) db = (patch_due space id d db).1
apply (publish space id) db = (publish_due space id db).1
apply (close space id) db = (close_due space id db).1
apply (delete space id) db = (delete_due space id db).1
apply (reassign space id target) db = (reassign_due space id target db).1

unfoldable pub run : List Move → Db → Db
run [] db = db
run (m ∷ moves) db = run moves (apply m db)

apply-IsPaidFor :
    (id amount : ℕ) (m : Move) (db : Db) → IsPaidFor id amount db → IsPaidFor id amount (apply m db)
unfolding apply patch_due publish_due close_due delete_due reassign_due
apply-IsPaidFor id amount (patch space k d) db h = elim (Bool-cases (amount_fits d.amount)) [
  | inr refused ↦ let is : (patch_due space k d db).1 ≡ db = ground arith in rw is h
  | inl fine ↦
      let is : (patch_due space k d db).1 ≡ ((load_due space k >>= patch_row d) db).1 =
        ground arith in
      rw is (
        loaded-IsPaidFor id amount space k (patch_row d) db
          (λ e there. patch_row-IsPaidFor id amount d e db there h) h)
]
apply-IsPaidFor id amount (publish space k) db h =
    loaded-IsPaidFor id amount space k (publish_row space) db
      (λ d there. publish_row-IsPaidFor id amount space d db there h) h
apply-IsPaidFor id amount (close space k) db h =
    loaded-IsPaidFor id amount space k close_row db
      (λ d there. close_row-IsPaidFor id amount d db there h) h
apply-IsPaidFor id amount (delete space k) db h =
    loaded-IsPaidFor id amount space k delete_row db
      (λ d there. delete_row-IsPaidFor id amount d db there h) h
apply-IsPaidFor id amount (reassign space k target) db h =
    loaded-IsPaidFor id amount space k (reassign_row space target) db
      (λ d there. reassign_row-IsPaidFor id amount space target d db there h) h

-- A due that is no draft and that somebody has paid keeps its amount, stays and becomes no draft again,
-- whatever sequence of edits, publications, closings, deletions and reassignments follows.
pub run-IsPaidFor :
    (id amount : ℕ) (moves : List Move) (db : Db)
    → IsPaidFor id amount db
    → IsPaidFor id amount (run moves db)
unfolding run
run-IsPaidFor id amount [] db h = h
run-IsPaidFor id amount (m ∷ moves) db h =
    run-IsPaidFor id amount moves (apply m db) (apply-IsPaidFor id amount m db h)
