-- ===== src/Tools.antt =====
-- The tools of an agent: crates/duragent/src/tools.
pub mod Json
pub mod Hooks
pub mod Identity
pub mod HookPatterns
pub mod Guards
pub mod Verdicts
pub mod SameCalls
pub mod Rejections
pub mod Steering
pub mod Executor
mod Tests
