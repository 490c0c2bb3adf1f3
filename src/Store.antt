-- ===== src/Store.antt =====
-- The tables of prisma/schema.prisma that the modelled services read and write, with the columns
-- that decide something. Ids, references and hashes are only compared, so they are numbers; a time
-- is a number of milliseconds. Columns that only hold text for people are left out.
pub mod Action
use duevy_be.Base.{ℕ, Bool, true, false, Option, List}
use duevy_be.Base.Int.{ℤ}
use duevy_be.StateMachine.{CheckoutStatus, PayoutStatus}

pub data RepRole : Type 0 where
  lead co : RepRole

pub data AuthMode : Type 0 where
  pin multisig : AuthMode

pub data KycStatus : Type 0 where
  unverified pending verified rejected : KycStatus

pub data StudentIdStatus : Type 0 where
  pending approved rejected : StudentIdStatus

pub data DueStatus : Type 0 where
  draft active closed : DueStatus

pub data EntryType : Type 0 where
  due_payment refund payout payout_fee payout_reversal manual_credit : EntryType

pub data Direction : Type 0 where
  credit debit : Direction

pub data Decision : Type 0 where
  approved rejected : Decision

pub data TxnStatus : Type 0 where
  pending completed failed : TxnStatus

pub record Space : Type 0 where
  pub id : ℕ
  pub is_archived : Bool
  pub payouts_frozen : Bool
  pub withdrawal_auth_mode : AuthMode
  pub withdrawal_pin_hash : Option ℕ
  pub withdrawal_pin_set_at : Option ℕ
  pub withdrawal_pin_failed_attempts : ℕ
  pub withdrawal_pin_locked_until : Option ℕ
  pub withdrawal_pin_hold_until : Option ℕ

pub record User : Type 0 where
  pub id : ℕ
  pub is_suspended : Bool
  pub is_deactivated : Bool
  pub kyc_status : KycStatus
  pub bachs_account_id : Option ℕ
  pub bachs_payouts_active : Bool
  pub student_id_status : Option StudentIdStatus
  pub password_hash : Option ℕ

pub record SpaceRep : Type 0 where
  pub user_id : ℕ
  pub space_id : ℕ
  pub role : RepRole
  pub is_signatory : Bool
  pub added_at : ℕ

pub record Due : Type 0 where
  pub id : ℕ
  pub space_id : ℕ
  pub amount : ℕ
  pub status : DueStatus
  pub allow_guests : Bool
  pub assigned_rep_id : Option ℕ
  pub created_at : ℕ

-- A row of `ledger_entries`; the list of them has the newest first.
pub record LedgerEntry : Type 0 where
  pub space_id : ℕ
  pub due_id : Option ℕ
  pub txn_id : Option ℕ
  pub due_payment_id : Option ℕ
  pub payout_id : Option ℕ
  pub entry_type : EntryType
  pub direction : Direction
  pub amount_kobo : ℕ
  pub gross_kobo : Option ℕ
  pub fee_kobo : Option ℕ
  pub net_kobo : Option ℕ
  pub reference : ℕ

pub record Payout : Type 0 where
  pub id : ℕ
  pub space_id : ℕ
  pub due_id : Option ℕ
  pub amount : ℕ
  pub fee_kobo : ℕ
  pub net_kobo : ℕ
  pub fee_discount_kobo : ℕ
  pub partner_redemption_id : Option ℕ
  pub reference : ℕ
  pub status : PayoutStatus
  pub active_space_id : Option ℕ
  pub approval_expires_at : Option ℕ
  pub requested_by_id : Option ℕ
  pub beneficiary_id : Option ℕ
  pub destination_id : Option ℕ
  pub provider_account_id : Option ℕ
  pub provider_payout_id : Option ℕ
  pub provider_fee_kobo : Option ℕ
  pub fee_settled_at : Option ℕ
  pub fee_settlement_kobo : Option ℤ

pub record PayoutApproval : Type 0 where
  pub payout_id : ℕ
  pub rep_user_id : ℕ
  pub decision : Decision

pub record PayoutOtp : Type 0 where
  pub payout_id : ℕ
  pub user_id : ℕ
  pub code_hash : ℕ
  pub attempts : ℕ
  pub expires_at : ℕ
  pub created_at : ℕ

pub record PartnerRedemption : Type 0 where
  pub id : ℕ
  pub space_id : ℕ
  pub partner_id : ℕ
  pub discount_percent : ℕ
  pub ends_at : Option ℕ
  pub revoked_at : Option ℕ

-- What stands in `reviewReason`, one item for each part of the text that `; ` joins.
pub data Flag : Type 0 where
  overpaid : ℕ → Flag
  paid_after_expiry : Flag
  previously_underpaid : Flag
  due_already_paid : ℕ → ℕ → Flag
  other_charge : ℕ → ℕ → Flag
  underpaid : ℕ → ℕ → Flag
  short_on_closed : CheckoutStatus → ℕ → ℕ → Flag
  -- The reason that a caller of `expireCheckout` gave.
  closed_for : ℕ → Flag

pub record Checkout : Type 0 where
  pub id : ℕ
  pub reference : ℕ
  pub user_id : ℕ
  pub space_id : ℕ
  pub status : CheckoutStatus
  pub face_kobo : ℕ
  pub fee_kobo : ℕ
  pub total_kobo : ℕ
  pub received_kobo : Option ℕ
  pub overpaid_kobo : ℕ
  pub due_set_key : List ℕ
  pub provider_checkout_id : Option ℕ
  pub provider_charge_id : Option ℕ
  pub destination_account_id : Option ℕ
  pub va_account_number : Option ℕ
  pub checkout_url : Option ℕ
  pub expires_at : ℕ
  pub created_at : ℕ
  pub needs_review : Bool
  -- `null` is the empty list.
  pub review_reason : List Flag

pub record CheckoutItem : Type 0 where
  pub checkout_id : ℕ
  pub due_id : ℕ
  pub face_kobo : ℕ
  pub fee_kobo : ℕ

pub record DuePayment : Type 0 where
  pub id : ℕ
  pub user_id : ℕ
  pub due_id : ℕ
  pub checkout_id : Option ℕ
  pub txn_id : Option ℕ
  pub reference : ℕ
  pub amount_paid : ℕ
  pub duevy_fee : ℕ
  pub net_to_space : ℕ

pub record Transaction : Type 0 where
  pub id : ℕ
  pub user_id : ℕ
  pub space_id : Option ℕ
  pub reference : ℕ
  pub amount : ℤ
  pub status : TxnStatus

pub record Receipt : Type 0 where
  pub number : ℕ
  pub checkout_id : ℕ
  pub user_id : ℕ
  pub space_id : ℕ
  pub total_kobo : ℕ

pub record Membership : Type 0 where
  pub user_id : ℕ
  pub space_id : ℕ

pub record Db : Type 0 where
  pub spaces : List Space
  pub users : List User
  pub reps : List SpaceRep
  pub memberships : List Membership
  pub dues : List Due
  pub redemptions : List PartnerRedemption
  pub ledger : List LedgerEntry
  pub payouts : List Payout
  pub approvals : List PayoutApproval
  pub otps : List PayoutOtp
  pub checkouts : List Checkout
  pub checkout_items : List CheckoutItem
  pub due_payments : List DuePayment
  pub transactions : List Transaction
  pub receipts : List Receipt
