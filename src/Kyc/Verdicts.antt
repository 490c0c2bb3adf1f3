-- ===== src/Kyc/Verdicts.antt =====
-- Reading a verdict twice changes nothing the second time (`refreshIdentity` of
-- src/services/kyc.service.ts).
use duevy_be.Base.{
  ℕ, ◌≡◌, refl, Bool, true, false, ◌==◌, ==_refl, length, if◌then◌else◌, Option, none, some, List,
  [], ◌∷◌, Option-cases, Bool-cases, inl, inr, arith,
}
use duevy_be.Base.Results.{ok, Result-cases}
use duevy_be.Base.Table.{update_by, map_option}
use duevy_be.Store.{KycStatus}
use duevy_be.Kyc.{Notice, KycUser, KycDb, or_rethrow, update_user, user_id}
use duevy_be.Kyc.Submit.{IdentityResult, KycCalls, status_from}
use duevy_be.Kyc.Refresh.{
  Refreshed, updated, unchanged, unknown, same_status, same_flag, all_among, same_requirements,
  find_account, is_unchanged, refreshed_row, refresh_notice, send_notice, apply_verdict,
  refresh_user, refresh_identity,
}

all_among-cons : (x : ℕ) (xs ys : List ℕ) → all_among xs ys ≡ true → all_among xs (x ∷ ys) ≡ true
all_among-cons x [] ys h = refl
all_among-cons x (y ∷ xs) ys h = ground (arith, all_among-cons x xs ys)

all_among_refl : (xs : List ℕ) → all_among xs xs ≡ true
all_among_refl [] = refl
all_among_refl (x ∷ xs) = ground (arith, all_among-cons x xs xs (all_among_refl xs))

same_status_refl : (s : KycStatus) → same_status s s ≡ true
same_status_refl KycStatus.unverified = refl
same_status_refl KycStatus.pending = refl
same_status_refl KycStatus.verified = refl
same_status_refl KycStatus.rejected = refl

same_flag_refl : (b : Bool) → same_flag b b ≡ true
same_flag_refl true = refl
same_flag_refl false = refl

-- What a verdict wrote agrees with it.
refreshed_row-is_unchanged :
    (now : ℕ) (r : IdentityResult) (u : KycUser) → is_unchanged r (refreshed_row now r u) ≡ true
unfolding is_unchanged same_requirements
refreshed_row-is_unchanged now r u = ground (
  arith,
  same_status_refl (status_from r),
  same_flag_refl r.payouts_active,
  all_among_refl r.requirements_due,
  ==_refl (length r.requirements_due),
)

-- The user of an account after an update that leaves the accounts and the ids.
find_account-update :
    (account k : ℕ) (f : KycUser → KycUser) (users : List KycUser)
    → ((v : KycUser) → (f v).account.bachs_account_id ≡ v.account.bachs_account_id)
    → find_account account (update_by user_id k f users)
      ≡ map_option
          (λ (v : KycUser). if v.account.id == k then f v else v)
          (find_account account users)
unfolding find_account update_by
find_account-update account k f [] h = refl
find_account-update account k f (v ∷ users) h =
    ground (arith, h v, find_account-update account k f users h)

pub send_notice-users :
    (db : KycDb) (id : ℕ) (n : Option Notice) → (send_notice id n db).users ≡ db.users
unfolding send_notice
send_notice-users db id none = refl
send_notice-users db id (some n) = refl

-- The row of the account after a verdict was written.
verdict-there :
    (account now : ℕ) (r : IdentityResult) (u : KycUser) (db : KycDb)
    → find_account account db.users ≡ some u
    → find_account account (update_user u.account.id (refreshed_row now r) db).users
      ≡ some (refreshed_row now r u)
unfolding update_user
verdict-there account now r u db found = ground (
  arith,
  find_account-update account u.account.id (refreshed_row now r) db.users (λ v. refl),
  ==_refl u.account.id,
)

-- A refresh of a known user, by the answer of the provider.
pub refresh_identity_lem :
    (calls : KycCalls) (now account person : ℕ) (r : IdentityResult) (u : KycUser) (db : KycDb)
    → find_account account db.users ≡ some u
    → u.bachs_person_id ≡ some person
    → or_rethrow (calls.get_identity_status account person) ≡ ok r
    → refresh_identity calls now account db ≡ (
        if is_unchanged r u then (ok unchanged, db) else (
          ok updated,
          send_notice u.account.id
              (refresh_notice r u)
              (update_user u.account.id (refreshed_row now r) db),
        ))
unfolding refresh_identity refresh_user apply_verdict
refresh_identity_lem calls now account person r u db found has gave = ground arith

-- After a refresh that gets an answer, a second one with the same answer of the provider changes
-- nothing and sends no notice: it answers `unchanged`, or `unknown` for an account that nobody has.
pub refresh_identity_twice :
    (calls : KycCalls) (now later account : ℕ) (db : KycDb) {done : Refreshed}
    → (refresh_identity calls now account db).0 ≡ ok done
    → let after = (refresh_identity calls now account db).1 in
      refresh_identity calls later account after
      ≡ (ok (elim done [ unknown ↦ unknown | updated ↦ unchanged | unchanged ↦ unchanged ]), after)
unfolding refresh_identity refresh_user apply_verdict
refresh_identity_twice calls now later account db {done} answer =
    elim (Option-cases (find_account account db.users)) [
      | inl nobody ↦ ground arith
      | inr (u, found) ↦ elim (Option-cases u.bachs_person_id) [
        | inl none_yet ↦ ground arith
        | inr (person, has) ↦
            elim (Result-cases (or_rethrow (calls.get_identity_status account person))) [
              | inr (e, out) ↦ absurd (ground arith)
              | inl (r, gave) ↦ elim (Bool-cases (is_unchanged r u)) [
                | inl same ↦ ground arith
                | inr differs ↦
                    let written = update_user u.account.id (refreshed_row now r) db in
                    let there = verdict-there account now r u db found in
                    let kept = send_notice-users written u.account.id (refresh_notice r u) in
                    let quiet = refreshed_row-is_unchanged now r u in
                    let first =
                      refresh_identity_lem calls now account person r u db found has gave in
                    let final = send_notice u.account.id (refresh_notice r u) written in
                    let second =
                      refresh_identity_lem calls later account person r (refreshed_row now r u)
                        final (ground (arith, there, kept)) has gave in
                    let again : refresh_identity calls later account final ≡ (ok unchanged, final) =
                      ground (arith, second, quiet) in
                    let once : refresh_identity calls now account db ≡ (ok updated, final) =
                      ground (arith, first, differs) in
                    let is : done ≡ updated = cc in ground (arith, once, again, is)
              ]
            ]
      ]
    ]
