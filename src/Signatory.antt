-- ===== src/Signatory.antt =====
-- src/services/signatory.service.ts: who signs a space's withdrawals, and the 24-hour hold that a
-- change of security starts. Notices to the reps and the audit trail are left out.
use duevy_be.Base.{
  ℕ, ◌+◌, ◌-◌, Bool, true, false, ◌&&◌, ◌||◌, ◌==◌, ltb, leb, not, if◌then◌else◌, Option, none,
  some, List, [], ◌∷◌, map, keep, find?, length, mem?,
}
use duevy_be.Base.Results.{Failure, app_error, Code}
use duevy_be.Base.Table.{find_by, update_by}
use duevy_be.Bcrypt.{Bcrypt}
use duevy_be.Store.{Db, Space, User, SpaceRep, AuthMode}
use duevy_be.Store.Action.{Action, pure, raise, gets, or_raise, ◌>>=◌, ◌>>◌, raise_if, modify}
use duevy_be.Withdrawal.Payouts.{is_lead}

abbrev pub required_signatories : ℕ
required_signatories = 3

-- 24 hours, in milliseconds.
abbrev pub security_change_hold_ms : ℕ
security_change_hold_ms = 86400000

unfoldable pub find_space : ℕ → List Space → Option Space
find_space = find_by (λ s. s.id)

unfoldable pub find_user : ℕ → List User → Option User
find_user = find_by (λ u. u.id)

unfoldable pub update_space : ℕ → (Space → Space) → Db → Db
update_space id f db = record db { spaces = update_by (λ (s : Space). s.id) id f db.spaces }

-- `isSuspended: false, isDeactivated: false`
unfoldable pub is_active_user : ℕ → List User → Bool
unfolding find_user
is_active_user id users = elim (find_user id users) [
  | none ↦ false
  | some u ↦ not (u.is_suspended || u.is_deactivated)
]

-- `orderBy: [{ role: 'asc' }, { addedAt: 'asc' }]`: the enum has the lead first.
unfoldable pub rep_before : SpaceRep → SpaceRep → Bool
rep_before a b =
    if is_lead a.role
    then (if is_lead b.role then leb a.added_at b.added_at else true)
    else (if is_lead b.role then false else leb a.added_at b.added_at)

unfoldable pub insert_rep : SpaceRep → List SpaceRep → List SpaceRep
insert_rep r [] = r ∷ []
insert_rep r (s ∷ ss) =
    let rest = insert_rep r ss in if rep_before r s then r ∷ s ∷ ss else s ∷ rest

unfoldable pub sort_reps : List SpaceRep → List SpaceRep
sort_reps [] = []
sort_reps (r ∷ rs) = insert_rep r (sort_reps rs)

abbrev pub signs : ℕ → SpaceRep → Bool
signs space r = r.space_id == space && (is_lead r.role || r.is_signatory)

unfoldable pub get_signatory_ids : ℕ → Db → List ℕ
get_signatory_ids space db =
    map (λ (r : SpaceRep). r.user_id)
      (sort_reps
        (keep (λ (r : SpaceRep). signs space r && is_active_user r.user_id db.users) db.reps))

-- `x && x > now ? x : null`
abbrev pub if_ahead : Option ℕ → ℕ → Option ℕ
if_ahead none now = none
if_ahead (some t) now = if ltb now t then some t else none

abbrev pub is_ahead : Option ℕ → ℕ → Bool
is_ahead none now = false
is_ahead (some t) now = ltb now t

abbrev pub is_multisig : AuthMode → Bool
is_multisig AuthMode.pin = false
is_multisig AuthMode.multisig = true

abbrev pub same_mode : AuthMode → AuthMode → Bool
same_mode a b = if is_multisig a then is_multisig b else not (is_multisig b)

-- `[...new Set(ids)]`: each id once, where it first stands.
unfoldable pub unique : List ℕ → List ℕ
unique [] = []
unique (x ∷ xs) = x ∷ keep (λ y. not (y == x)) (unique xs)

module _ (bcrypt : Bcrypt) where
  unfoldable pub assert_password : ℕ → ℕ → Action User
  assert_password user_id password = do
    u ← gets (λ db. find_user user_id db.users)
    user ← or_raise u (app_error 404 Code.not_found)
    hash ← or_raise user.password_hash (app_error 409 Code.password_required)
    raise_if (not (bcrypt.compare password hash)) (app_error 403 Code.invalid_password)
    pure user

-- The loop over the nominees: each is a co-rep of the space with an active account.
unfoldable pub nominee_fault : ℕ → List ℕ → Db → Option Failure
nominee_fault space [] db = none
nominee_fault space (id ∷ ids) db =
    let rest = nominee_fault space ids db in
    elim (find? (λ (r : SpaceRep). r.space_id == space && (r.user_id == id)) db.reps) [
      | none ↦ some (app_error 422 Code.validation_error)
      | some r ↦
          if is_lead r.role
          then some (app_error 422 Code.validation_error)
          else (if is_active_user id db.users
              then rest
              else some (app_error 409 Code.user_inactive))
    ]

abbrev pub raise_fault : Option Failure → Action (Unit {0})
raise_fault none = pure tt
raise_fault (some e) = raise e

-- The co-reps who sign now.
unfoldable pub current_signatories : ℕ → Db → List ℕ
current_signatories space db =
    map (λ (r : SpaceRep). r.user_id)
      (keep (λ (r : SpaceRep). r.space_id == space && (not (is_lead r.role) && r.is_signatory))
        db.reps)

unfoldable pub some_missing : List ℕ → List ℕ → Bool
some_missing [] wanted = false
some_missing (id ∷ ids) wanted =
    let rest = some_missing ids wanted in if mem? id wanted then rest else true

-- The two `updateMany`: all flags of the space off, then those wanted on.
abbrev pub flag_signatories : ℕ → List ℕ → SpaceRep → SpaceRep
flag_signatories space wanted r =
    if r.space_id == space then record r { is_signatory = mem? r.user_id wanted } else r

abbrev pub hold_until : Option ℕ → Space → Space
hold_until none s = s
hold_until (some t) s = record s { withdrawal_pin_hold_until = some t }

module _ (bcrypt : Bcrypt) (now : ℕ) where
  unfoldable pub set_signatories : ℕ → ℕ → List ℕ → ℕ → Action (List ℕ × Option ℕ)
  set_signatories space_id user_id signatory_ids password = do
    actor ← assert_password bcrypt user_id password
    let wanted = unique signatory_ids
    raise_if (ltb (required_signatories - 1) (length wanted)) (app_error 422 Code.validation_error)
    found ← gets (λ db. find_space space_id db.spaces)
    space ← or_raise found (app_error 404 Code.not_found)
    fault ← gets (nominee_fault space_id wanted)
    raise_fault fault
    current ← gets (current_signatories space_id)
    let changed = not (length current == length wanted) || some_missing current wanted
    let multisig = is_multisig space.withdrawal_auth_mode
    raise_if (multisig && ltb (length wanted) (required_signatories - 1))
        (app_error 409 Code.signatories_incomplete)
    if changed
        then (do
          let hold = if multisig then some (now + security_change_hold_ms) else none
          modify (λ db.
              update_space space_id (hold_until hold)
                (record db { reps = map (flag_signatories space_id wanted) db.reps }))
          pure (user_id ∷ wanted, hold))
        else pure (user_id ∷ wanted, none)

  unfoldable pub set_withdrawal_auth_mode :
      ℕ → ℕ → AuthMode → ℕ → Action (AuthMode × Bool × Option ℕ)
  set_withdrawal_auth_mode space_id user_id mode password = do
    actor ← assert_password bcrypt user_id password
    found ← gets (λ db. find_space space_id db.spaces)
    space ← or_raise found (app_error 404 Code.not_found)
    let active_hold = if_ahead space.withdrawal_pin_hold_until now
    signatories ← gets (get_signatory_ids space_id)
    if same_mode space.withdrawal_auth_mode mode then pure (mode, false, active_hold) else (do
      raise_if (is_multisig mode && ltb (length signatories) required_signatories)
          (app_error 409 Code.signatories_incomplete)
      let hold = if is_multisig mode then active_hold else some (now + security_change_hold_ms)
      modify (
          update_space space_id
            (λ s. record s { withdrawal_auth_mode = mode; withdrawal_pin_hold_until = hold }))
      pure (mode, true, hold))
