-- ===== src/Webhooks.antt =====
-- src/services/webhookProcessor.service.ts and src/jobs/webhookWorker.ts: provider events are stored
-- once, claimed in batches, handled, and tried again with a growing pause.
pub mod Queue
pub mod Process
pub mod Retries
pub mod Life
pub mod Exclusive
