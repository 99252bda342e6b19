-- ===== src/Doomslug.antt =====
-- pkg/doomslug: approvals of blocks, and when a block may be produced.
pub mod Approval
pub mod Tracker
pub mod AtHeight
pub mod State
pub mod TimerLoop
pub mod Horizon
pub mod Timer
pub mod BlockApproval
