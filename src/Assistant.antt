-- ===== src/Assistant.antt =====
-- The assistant (backend/app/assistant): plans of a language model become workflows, which run at once
-- when they only read and wait for the user's confirmation when they write.
pub mod Value
pub mod References
pub mod Steps
pub mod Resolve
pub mod Selection
pub mod Executor
pub mod Workflows
pub mod Planning
pub mod Chat
pub mod Validate
pub mod Context
