-- ===== src/Withdrawal/Escrow.antt =====
-- An abstract view of the money of src/services/withdrawal.service.ts, with no rows, entries or
-- statuses: each space has a purse, and each payout a phase.
pub mod View
use duevy_be.Base.{ℕ, ◌+◌, ◌≤◌, ◌≡◌, ◌==◌, if◌then◌else◌}

-- Where the money of a payout is.
pub data Phase : Type 0 where
  unused : Phase
  taken : (space amount : ℕ) → Phase
  returned : Phase

pub record Escrow : Type 0 where
  pub purse : ℕ → ℕ
  pub phase : ℕ → Phase

pub data Step (a b : Escrow) : Type 0 where
  idle : ((s : ℕ) → b.purse s ≡ a.purse s) → ((i : ℕ) → b.phase i ≡ a.phase i) → Step a b
  -- Money comes in, and no payout is concerned.
  collect :
      (space amount : ℕ)
      → ((s : ℕ) → b.purse s ≡ (if space == s then amount + a.purse s else a.purse s))
      → ((i : ℕ) → b.phase i ≡ a.phase i)
      → Step a b
  -- A new payout takes what the purse has.
  take :
      (id space amount : ℕ)
      → a.phase id ≡ Phase.unused
      → amount ≤ a.purse space
      → ((s : ℕ) → a.purse s ≡ (if space == s then amount + b.purse s else b.purse s))
      → ((i : ℕ) → b.phase i ≡ (if id == i then Phase.taken space amount else a.phase i))
      → Step a b
  -- A payout gives back the amount that it took, to the purse that it came from.
  give_back :
      (id space amount : ℕ)
      → a.phase id ≡ Phase.taken space amount
      → ((s : ℕ) → b.purse s ≡ (if space == s then amount + a.purse s else a.purse s))
      → ((i : ℕ) → b.phase i ≡ (if id == i then Phase.returned else a.phase i))
      → Step a b

pub data Steps : Escrow → Escrow → Type 0 where
  done : {a : Escrow} → Steps a a
  next : {a b c : Escrow} → Step a b → Steps b c → Steps a c
