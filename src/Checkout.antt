-- ===== src/Checkout.antt =====
-- src/services/checkout.service.ts: a student's payment of one or more dues of a space, from the
-- opening of the checkout to its outcome.
pub mod Outcomes
pub mod Settlement
pub mod Fulfil
pub mod Paid
pub mod Replay
pub mod Create
pub mod Lines
