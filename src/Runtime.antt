-- ===== src/Runtime.antt =====
-- The decoding loop's parts in src/runtime.rs.
mod Tests
pub mod Arms
pub mod MtpGap
pub mod Turn
pub mod TargetOnly
pub mod Policy
pub mod Selection
pub mod Session
pub mod Verify
pub mod Greedy
pub mod ThinkingBudget
