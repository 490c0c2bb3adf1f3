-- ===== src/Access.antt =====
-- src/middleware/requireRole.ts: who may call a route. A verdict is the answer of the middleware; the
-- user is the token's, and the rows are those that it looks up.
use duevy_be.Base.{
  ℕ, Bool, true, false, ◌&&◌, ◌||◌, ◌==◌, not, find?, if◌then◌else◌, Option, none, some, List,
}
use duevy_be.Store.{Db, SpaceRep}
use duevy_be.Signatory.{find_user}
use duevy_be.Withdrawal.Payouts.{is_lead, taken}

pub data Role : Type 0 where
  student rep admin : Role

pub data AdminSubRole : Type 0 where
  super_admin compliance_officer support_lead : AdminSubRole

pub data Permission : Type 0 where
  user_management payouts disputes overrides : Permission

pub record Token : Type 0 where
  pub sub : ℕ
  pub role : Role

pub data Verdict : Type 0 where
  next unauthorized forbidden : Verdict

abbrev same_role : Role → Role → Bool
same_role Role.student Role.student = true
same_role Role.rep Role.rep = true
same_role Role.admin Role.admin = true
same_role _ _ = false

abbrev is_super : Option AdminSubRole → Bool
is_super (some AdminSubRole.super_admin) = true
is_super _ = false

unfoldable pub require_role : List Role → Option Token → Verdict
require_role roles none = unauthorized
require_role roles (some user) =
    if taken (find? (same_role user.role) roles) then next else forbidden

abbrev pub is_rep_of : ℕ → ℕ → SpaceRep → Bool
is_rep_of user space r = r.user_id == user && (r.space_id == space)

-- `row.user.isSuspended || row.user.isDeactivated`
abbrev pub is_barred : ℕ → Db → Bool
is_barred user db = elim (find_user user db.users) [
  | none ↦ false
  | some u ↦ u.is_suspended || u.is_deactivated
]

-- The last two checks, on the row that was found or kept.
unfoldable pub judge_rep : Bool → Option SpaceRep → Verdict
judge_rep lead_only none = forbidden
judge_rep lead_only (some r) = if lead_only && not (is_lead r.role) then forbidden else next

abbrev pub kept_rep : ℕ → Option SpaceRep → Option SpaceRep
kept_rep space none = none
kept_rep space (some r) = if r.space_id == space then some r else none

-- The verdict, and the rep row that the request carries from there on.
unfoldable pub require_space_rep :
    Bool → Option Token → Option ℕ → Option SpaceRep → Db → Verdict × Option SpaceRep
unfolding judge_rep
require_space_rep lead_only none space carried db = (forbidden, carried)
require_space_rep lead_only (some user) none carried db = (forbidden, carried)
require_space_rep lead_only (some user) (some space) carried db = elim (kept_rep space carried) [
  | some r ↦ (judge_rep lead_only (some r), carried)
  | none ↦
      let row = find? (is_rep_of user.sub space) db.reps in
      if taken row && is_barred user.sub db
      then (forbidden, carried)
      else (judge_rep lead_only row, row)
]

abbrev pub is_admin : Option Token → Bool
is_admin none = false
is_admin (some user) = same_role user.role Role.admin

unfoldable pub require_admin : Option Token → Verdict
require_admin user = if is_admin user then next else forbidden

unfoldable pub require_super_admin : (ℕ → Option AdminSubRole) → Option Token → Verdict
require_super_admin sub_roles none = forbidden
require_super_admin sub_roles (some user) =
    if same_role user.role Role.admin && is_super (sub_roles user.sub) then next else forbidden

unfoldable pub require_admin_permission :
    (ℕ → Option (Permission → Bool)) → Permission → Option Token → Verdict
require_admin_permission permissions p none = forbidden
require_admin_permission permissions p (some user) =
    if same_role user.role Role.admin
    then elim (permissions user.sub) [
      | none ↦ forbidden
      | some has ↦ if has p then next else forbidden
    ]
    else forbidden
