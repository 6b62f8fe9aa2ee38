-- ===== src/Agent.antt =====
-- The agent of pkg/agent: the plan it announces (plan.go, planner.go), its calls of the model, its turn,
-- its summaries and the loop around them (loop.go), and what holds of them.
pub mod Plan
pub mod PlanFile
pub mod Parsing
pub mod World
pub mod Calls
pub mod Planner
pub mod Turn
pub mod Summary
pub mod Context
pub mod Notices
pub mod Loop
pub mod Serving
pub mod Orphans
pub mod Sessions
pub mod Growth
pub mod Histories
pub mod Steps
pub mod AllReady
pub mod Readiness
pub mod ChatCalls
pub mod BatchCalls
pub mod TurnCalls
pub mod Stopping
pub mod Outside
pub mod Interrupted
pub mod Forgetting
pub mod Visibility
pub mod Memory
mod Fixtures
mod Examples
