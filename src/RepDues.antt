-- ===== src/RepDues.antt =====
-- src/routes/repDues.ts: what a rep does with the dues of a space. The guard on the rep is Access; the
-- role that it found is an argument. Columns that only hold text are left out, and so are the audit
-- entries and the notices.
pub mod Kept
use duevy_be.Base.{
  ℕ, ◌+◌, ◌-◌, ◌*◌, ◌%◌, Bool, true, false, ◌&&◌, ◌||◌, ◌==◌, leb, ltb, not, keep, find?, map, mem?,
  holds, is_some, get_or, if◌then◌else◌, Option, none, some, List, [], ◌∷◌,
}
use duevy_be.Base.Results.{app_error, Code}
use duevy_be.Base.Table.{find_by, update_by}
use duevy_be.Base.Stateful.{Stateful}
use duevy_be.Store.{Db, Due, DueStatus, DuePayment, RepRole, SpaceRep, Membership}
use duevy_be.Store.Action.{Action, pure, gets, or_raise, ◌>>=◌, ◌>>◌, raise_if, modify, when}
use duevy_be.Withdrawal.Payouts.{is_lead}
use duevy_be.Withdrawal.Request.{lead_user}
use duevy_be.Checkout.Create.{collects}

-- A million naira.
abbrev pub max_due_amount_kobo : ℕ
max_due_amount_kobo = 100000000

abbrev pub utc_day_ms : ℕ
utc_day_ms = 86400000

abbrev pub remind_cooldown_ms : ℕ
remind_cooldown_ms = 86400000

abbrev status_tag : DueStatus → ℕ
status_tag DueStatus.draft = 0
status_tag DueStatus.active = 1
status_tag DueStatus.closed = 2

-- `===` on statuses.
abbrev pub is_due_status : DueStatus → DueStatus → Bool
is_due_status a b = status_tag a == status_tag b

abbrev pub due_id : Due → ℕ
due_id d = d.id

unfoldable pub find_due : ℕ → List Due → Option Due
find_due = find_by due_id

unfoldable pub update_due : ℕ → (Due → Due) → Db → Db
update_due id f db = record db { dues = update_by due_id id f db.dues }

abbrev pub due_in_space : ℕ → Option Due → Option Due
due_in_space space none = none
due_in_space space (some d) = if d.space_id == space then some d else none

-- `loadDue`, and the 404 that each of its callers answers.
abbrev pub load_due : ℕ → ℕ → Action Due
load_due space id = do
  found ← gets (λ (db : Db). find_due id db.dues)
  or_raise (due_in_space space found) (app_error 404 Code.not_found)

-- Only a space whose lead can collect opens dues for payment.
abbrev pub assert_can_collect : ℕ → Action (Unit {0})
assert_can_collect space = do
  lead ← gets (lead_user space)
  raise_if (not (collects lead)) (app_error 409 Code.kyc_required)

-- `findUnique({ where: { userId_spaceId } })`, if the rep found is a co-rep.
abbrev pub is_co_rep : ℕ → ℕ → Db → Bool
is_co_rep user space db =
    is_co (find? (λ (r : SpaceRep). r.user_id == user && (r.space_id == space)) db.reps)
  where
    is_co : Option SpaceRep → Bool
    is_co none = false
    is_co (some r) = not (is_lead r.role)

pub record NewDue : Type 0 where
  pub amount : ℕ
  pub due_date : ℕ
  pub publish : Bool
  pub assigned_rep_id : Option ℕ
  pub allow_guests : Bool

abbrev pub fits : ℕ → Bool
fits amount = leb 1 amount && leb amount max_due_amount_kobo

-- The schema's rules on the amount and on the day, which is today or later.
unfoldable pub is_valid_due : ℕ → NewDue → Bool
is_valid_due now d = fits d.amount && leb (now - now % utc_day_ms) d.due_date

abbrev pub new_due : ℕ → ℕ → ℕ → ℕ → NewDue → Due
new_due now id space assignee d = record {
  id = id;
  space_id = space;
  amount = d.amount;
  status = if d.publish then DueStatus.active else DueStatus.draft;
  allow_guests = d.allow_guests;
  assigned_rep_id = some assignee;
  created_at = now;
}

-- Assigning to someone else is the lead's call, and only to a co-rep.
unfoldable pub check_assignee : ℕ → ℕ → RepRole → ℕ → Action (Unit {0})
check_assignee space me role assignee = when (not (assignee == me)) (
    raise_if (not (is_lead role)) (app_error 403 Code.forbidden)
    >> (gets (is_co_rep assignee space) >>= λ co.
        raise_if (not co) (app_error 400 Code.validation_error)))

unfoldable pub create_due : ℕ → ℕ → ℕ → ℕ → RepRole → NewDue → Action Due
unfolding check_assignee
create_due now id space me role d = do
  raise_if (not (is_valid_due now d)) (app_error 400 Code.validation_error)
  check_assignee space me role (get_or d.assigned_rep_id me)
  when d.publish (assert_can_collect space)
  modify (λ (db : Db). record db {
    dues = new_due now id space (get_or d.assigned_rep_id me) d ∷ db.dues;
  })
  pure (new_due now id space (get_or d.assigned_rep_id me) d)

-- `has_text` says whether the title, the note, the date or the type is among the fields.
pub record DuePatch : Type 0 where
  pub amount : Option ℕ
  pub allow_guests : Option Bool
  pub has_text : Bool

abbrev pub is_empty_patch : DuePatch → Bool
is_empty_patch d = not (is_some d.amount) && (not (is_some d.allow_guests) && not d.has_text)

abbrev pub amount_fits : Option ℕ → Bool
amount_fits none = true
amount_fits (some amount) = fits amount

-- `data.amount !== undefined && data.amount !== due.amount`
abbrev pub changes_amount : DuePatch → Due → Bool
changes_amount patch d = elim patch.amount [ none ↦ false | some amount ↦ not (amount == d.amount) ]

unfoldable pub has_payments : ℕ → List DuePayment → Bool
has_payments due [] = false
has_payments due (p ∷ ps) = let rest = has_payments due ps in if p.due_id == due then true else rest

abbrev pub patched_due : DuePatch → Due → Due
patched_due patch d = record d {
  amount = get_or patch.amount d.amount;
  allow_guests = get_or patch.allow_guests d.allow_guests;
}

-- What follows the look-up.
unfoldable pub patch_row : DuePatch → Due → Action Due
patch_row patch d = do
  raise_if (is_due_status d.status DueStatus.closed) (app_error 409 Code.due_closed)
  raise_if (is_empty_patch patch) (app_error 400 Code.validation_error)
  paid ← gets (λ (db : Db). has_payments d.id db.due_payments)
  raise_if (changes_amount patch d && paid) (app_error 409 Code.due_has_payments)
  modify (update_due d.id (patched_due patch))
  pure (patched_due patch d)

unfoldable pub patch_due : ℕ → ℕ → DuePatch → Action Due
unfolding patch_row
patch_due space id patch =
    raise_if (not (amount_fits patch.amount)) (app_error 400 Code.validation_error)
    >> (load_due space id >>= patch_row patch)

abbrev pub with_status : DueStatus → Due → Due
with_status status d = record d { status = status }

unfoldable pub publish_row : ℕ → Due → Action Due
publish_row space d = do
  raise_if (not (is_due_status d.status DueStatus.draft)) (app_error 409 Code.invalid_transition)
  assert_can_collect space
  modify (update_due d.id (with_status DueStatus.active))
  pure (with_status DueStatus.active d)

unfoldable pub publish_due : ℕ → ℕ → Action Due
unfolding publish_row
publish_due space id = load_due space id >>= publish_row space

unfoldable pub close_row : Due → Action Due
close_row d = do
  raise_if (not (is_due_status d.status DueStatus.active)) (app_error 409 Code.invalid_transition)
  modify (update_due d.id (with_status DueStatus.closed))
  pure (with_status DueStatus.closed d)

unfoldable pub close_due : ℕ → ℕ → Action Due
unfolding close_row
close_due space id = load_due space id >>= close_row

unfoldable pub without_due : ℕ → Db → Db
without_due id db = record db { dues = keep (λ (d : Due). not (d.id == id)) db.dues }

unfoldable pub delete_row : Due → Action (Unit {0})
delete_row d = do
  raise_if (not (is_due_status d.status DueStatus.draft)) (app_error 409 Code.only_drafts_deletable)
  modify (without_due d.id)

unfoldable pub delete_due : ℕ → ℕ → Action (Unit {0})
unfolding delete_row
delete_due space id = load_due space id >>= delete_row

abbrev pub assigned_to : ℕ → Due → Due
assigned_to user d = record d { assigned_rep_id = some user }

unfoldable pub reassign_row : ℕ → ℕ → Due → Action Due
reassign_row space target d = do
  co ← gets (is_co_rep target space)
  raise_if (not co) (app_error 400 Code.validation_error)
  raise_if (holds target d.assigned_rep_id) (app_error 409 Code.already_assigned)
  modify (update_due d.id (assigned_to target))
  pure (assigned_to target d)

-- The guard has let the lead through.
unfoldable pub reassign_due : ℕ → ℕ → ℕ → Action Due
unfolding reassign_row
reassign_due space id target = load_due space id >>= reassign_row space target

-- When each due was last reminded of.
pub record ReminderDb : Type 0 where
  pub db : Db
  pub last_reminded_at : ℕ → Option ℕ

abbrev pub may_remind : ℕ → Option ℕ → Bool
may_remind now none = true
may_remind now (some t) = ltb (t + remind_cooldown_ms) now

abbrev has_paid : ℕ → ℕ → List DuePayment → Bool
has_paid user due payments =
    is_some (find? (λ (p : DuePayment). p.user_id == user && (p.due_id == due)) payments)

abbrev is_meant : List ℕ → ℕ → Bool
is_meant [] user = true
is_meant (u ∷ users) user = mem? user (u ∷ users)

-- The members who have not paid, narrowed to the users named if any are.
unfoldable pub remind_targets : ℕ → Due → List ℕ → Db → List ℕ
remind_targets space d users db =
    map (λ (m : Membership). m.user_id)
      (keep
        (λ (m : Membership).
          m.space_id == space
          && (is_meant users m.user_id && not (has_paid m.user_id d.id db.due_payments)))
        db.memberships)

abbrev pub reminded : ℕ → ℕ → ReminderDb → ReminderDb
reminded now due s = record s {
  last_reminded_at = λ k. if k == due then some now else s.last_reminded_at k;
}

-- The claim of the slot is one statement; then the notices go out. The answer is who gets one.
unfoldable pub remind_due : ℕ → ℕ → ℕ → List ℕ → Stateful ReminderDb (List ℕ)
remind_due now space id users = do
  found ← gets (λ (s : ReminderDb). find_due id s.db.dues)
  d ← or_raise (due_in_space space found) (app_error 404 Code.not_found)
  free ← gets (λ (s : ReminderDb). may_remind now (s.last_reminded_at d.id))
  raise_if (not free) (app_error 429 Code.reminder_cooldown)
  modify (reminded now d.id)
  gets (λ (s : ReminderDb). remind_targets space d users s.db)
