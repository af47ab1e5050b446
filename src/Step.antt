-- ===== src/Step.antt =====
-- The outbound HTTP step of apps/workflow-service/src/workflow-engine: classification of failures,
-- the retry decision, the timeout and the idempotency key.
pub mod Classifier
pub mod Retry
pub mod Timeout
pub mod IdempotencyKey
mod Tests
