-- ===== src/Withdrawal/Lockout.antt =====
-- The lock on a space's withdrawal code (`checkPin` of src/services/withdrawal.service.ts).
use duevy_be.Base.{ℕ, ◌+◌, ◌<◌, ◌≡◌, refl, false, leb, if◌then◌else◌, some, arith}
use duevy_be.Base.Results.{err, app_error, Code}
use duevy_be.Base.Table.{find_by-update_by}
use duevy_be.Bcrypt.{Bcrypt}
use duevy_be.Store.{Db, Space}
use duevy_be.Signatory.{find_space, update_space, is_ahead}
use duevy_be.Withdrawal.Pin.{check_pin, wrong_pin, count_failure, set_failed, pin_lock_ms}

-- A row of the table after an update of that row.
found-updated :
    (s : Space) (f : Space → Space) (db : Db)
    → ((r : Space) → (f r).id ≡ r.id)
    → find_space s.id db.spaces ≡ some s
    → find_space s.id (update_space s.id f db).spaces ≡ some (f s)
unfolding find_space update_space
found-updated s f db keeps found =
    let law = find_by-update_by (λ (r : Space). r.id) s.id s.id f db.spaces keeps in
    ground (arith, law)

-- A wrong guess is counted; the fifth locks the code and starts the count again.
pub wrong_pin_lem :
    (bcrypt : Bcrypt) (now : ℕ) (s : Space) (db : Db)
    → find_space s.id db.spaces ≡ some s
    → let counted = update_space s.id count_failure db in
      wrong_pin bcrypt now s db ≡ (
        if leb 5 (s.withdrawal_pin_failed_attempts + 1)
        then (
          err (app_error 423 Code.withdrawal_pin_locked),
          update_space s.id (set_failed 0 (some (now + pin_lock_ms))) counted,
        )
        else (err (app_error 403 Code.invalid_withdrawal_pin), counted))
unfolding wrong_pin
wrong_pin_lem bcrypt now s db found =
    ground (arith, found-updated s count_failure db (λ r. refl) found)

locked_refuses :
    (bcrypt : Bcrypt) (later other hash until : ℕ) (row : Space) (db : Db)
    → row.withdrawal_pin_hash ≡ some hash
    → row.withdrawal_pin_locked_until ≡ some until
    → later < until
    → check_pin bcrypt later row other db ≡ (err (app_error 423 Code.withdrawal_pin_locked), db)
unfolding check_pin
locked_refuses bcrypt later other hash until row db has_code locked soon = ground arith

-- A wrong code on a space that has a code, is not locked and had four wrong guesses is answered 423.
-- When the row is read again before 30 minutes are over, every code is answered 423 and changes
-- nothing, the right one too.
pub fifth_wrong_pin_locks :
    (bcrypt : Bcrypt) (now pin hash : ℕ) (s : Space) (db : Db)
    → find_space s.id db.spaces ≡ some s
    → s.withdrawal_pin_hash ≡ some hash
    → is_ahead s.withdrawal_pin_locked_until now ≡ false
    → s.withdrawal_pin_failed_attempts ≡ 4
    → bcrypt.compare pin hash ≡ false
    → (later other : ℕ) (row : Space) → later < now + pin_lock_ms
    → find_space s.id (check_pin bcrypt now s pin db).1.spaces ≡ some row
    → let after = check_pin bcrypt now s pin db in
      (after.0 ≡ err (app_error 423 Code.withdrawal_pin_locked))
      × (check_pin bcrypt later row other after.1
          ≡ (err (app_error 423 Code.withdrawal_pin_locked), after.1))
unfolding check_pin
fifth_wrong_pin_locks bcrypt now pin hash s db found has_code open_still four wrong later other row
      soon there =
    let guess = wrong_pin_lem bcrypt now s db found in
    let counted = update_space s.id count_failure db in
    let row_counted = found-updated s count_failure db (λ r. refl) found in
    let locked =
      found-updated (count_failure s) (set_failed 0 (some (now + pin_lock_ms))) counted (λ r. refl)
        row_counted in
    let gives : check_pin bcrypt now s pin db ≡ (
      err (app_error 423 Code.withdrawal_pin_locked),
      update_space s.id (set_failed 0 (some (now + pin_lock_ms))) counted,
    ) =
      ground (arith, guess) in
    let is : row ≡ set_failed 0 (some (now + pin_lock_ms)) (count_failure s) =
      ground (arith, locked, gives, there) in
    (
      ground (arith, gives),
      locked_refuses bcrypt later other hash (now + pin_lock_ms) row
          (check_pin bcrypt now s pin db).1 (ground (arith, is)) (ground (arith, is)) soon,
    )
