-- ===== src/Limits.antt =====
-- The limiters that count in Redis: outbound-concurrency-limiter.ts, outbound-rate-limiter.ts of
-- apps/workflow-service/src/workflow-engine and rate-limiter.guard.ts of apps/api-gateway.
pub mod Redis
pub mod Provider
pub mod Concurrency
pub mod RateLimit
pub mod Gateway
pub mod Memory
pub mod Clocked
mod Tests
