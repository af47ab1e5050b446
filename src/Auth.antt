-- ===== src/Auth.antt =====
-- packages/auth/src: the authorization policy, the guards, and what they attach to a request.
pub mod Policy
pub mod Guards
mod Tests
