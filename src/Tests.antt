-- ===== src/Tests.antt =====
-- Runs at concrete inputs, where the hypotheses of the results hold.
mod Money
mod Payouts
mod Requests
mod Checkouts
mod Queues
mod Identity
mod Polls
mod Rewards
