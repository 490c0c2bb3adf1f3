-- ===== src/Partner.antt =====
-- src/services/partner.service.ts: redeeming a partner's code for a space. The partners are a table of
-- their own here; codes are numbers, and the trimmed upper-case form of what was typed is an argument.
use duevy_be.Base.{
  ℕ, ◌+◌, ◌*◌, Bool, true, false, ◌&&◌, ◌==◌, leb, ltb, not, find?, sum_by, if◌then◌else◌, Option,
  none, some, List, ◌∷◌,
}
use duevy_be.Base.Results.{Result, ok, err, app_error, Code}
use duevy_be.Store.{PartnerRedemption}
use duevy_be.Withdrawal.Payouts.{taken}

-- A day, in milliseconds.
abbrev pub day_ms : ℕ
day_ms = 86400000

pub record Partner : Type 0 where
  pub id : ℕ
  pub code : ℕ
  pub is_active : Bool
  pub expires_at : Option ℕ
  pub max_redemptions : Option ℕ
  pub withdrawal_fee_discount_percent : ℕ
  pub duration_days : Option ℕ

-- `!r.revokedAt && (!r.endsAt || r.endsAt > now)`
unfoldable pub is_redemption_active : ℕ → PartnerRedemption → Bool
is_redemption_active now r = not (taken r.revoked_at) && runs r.ends_at
  where
    runs : Option ℕ → Bool
    runs none = true
    runs (some t) = ltb now t

-- The redemptions of a partner that are not revoked.
unfoldable pub count_redemptions : ℕ → List PartnerRedemption → ℕ
count_redemptions partner = sum_by (λ (r : PartnerRedemption).
    if r.partner_id == partner && not (taken r.revoked_at) then 1 else 0)

abbrev pub has_expired : ℕ → Option ℕ → Bool
has_expired now none = false
has_expired now (some t) = leb t now

abbrev pub is_exhausted : ℕ → Option ℕ → Bool
is_exhausted used none = false
is_exhausted used (some most) = leb most used

unfoldable pub find_redeemable_partner :
    ℕ → ℕ → List Partner → List PartnerRedemption → Result Partner
find_redeemable_partner now code partners redemptions =
    elim (find? (λ (p : Partner). p.code == code) partners) [
      | none ↦ err (app_error 422 Code.invalid_partner_code)
      | some p ↦
          if not p.is_active
          then err (app_error 422 Code.invalid_partner_code)
          else (if has_expired now p.expires_at
              then err (app_error 422 Code.partner_code_expired)
              else (if is_exhausted (count_redemptions p.id redemptions) p.max_redemptions
                  then err (app_error 422 Code.partner_code_exhausted)
                  else ok p))
    ]

-- `partner.durationDays ? … : null`
abbrev pub end_of : ℕ → Option ℕ → Option ℕ
end_of now none = none
end_of now (some days) = if days == 0 then none else some (now + days * day_ms)

abbrev pub redemption : ℕ → ℕ → ℕ → Partner → PartnerRedemption
redemption now id space p = record {
  id = id;
  space_id = space;
  partner_id = p.id;
  discount_percent = p.withdrawal_fee_discount_percent;
  ends_at = end_of now p.duration_days;
  revoked_at = none;
}

-- `findUnique({ where: { spaceId } })`
unfoldable pub find_redemption : ℕ → List PartnerRedemption → Option PartnerRedemption
find_redemption space = find? (λ (r : PartnerRedemption). r.space_id == space)

-- The partner's row is locked, so one redemption of a code runs at a time.
unfoldable pub redeem_for_space :
    ℕ → ℕ → ℕ → ℕ → List Partner → List PartnerRedemption → Result (List PartnerRedemption)
redeem_for_space now id space code partners redemptions =
    if taken (find_redemption space redemptions)
    then err (app_error 409 Code.partner_already_applied)
    else (elim (find_redeemable_partner now code partners redemptions) [
      | ok p ↦ ok (redemption now id space p ∷ redemptions)
      | err e ↦ err e
    ])
