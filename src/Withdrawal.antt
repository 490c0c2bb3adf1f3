-- ===== src/Withdrawal.antt =====
-- src/services/withdrawal.service.ts: a rep's withdrawal from a space, from the request to the bank's
-- answer. `now` is the clock, the provider's answers and the fresh ids are arguments.
pub mod Pin
pub mod Lockout
pub mod Payouts
pub mod Invariant
pub mod Preserve
pub mod Effects
pub mod Create
pub mod Moves
pub mod Runs
pub mod Guarantees
pub mod Request
pub mod Dispatch
pub mod Provider
pub mod Whole
pub mod Escrow
pub mod History
pub mod Refinement
pub mod Finishes
