-- ===== src/Workflow.antt =====
-- The workflows of workflows/base: the context that the states share, the states of the PACE
-- channel, and the machine that composes them.
pub mod Reader
pub mod Context
pub mod States
pub mod Establish
pub mod Pace
pub mod ChangePin
pub mod Authentication
mod Examples
