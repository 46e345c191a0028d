-- ===== src/Proposals.antt =====
-- Change proposals: the store (src/proposals/proposalService.ts), the queue and its resolution
-- (src/mcp/proposalQueue.ts), and what they guarantee.
pub mod Store
pub mod Reviewers
pub mod Kinds
pub mod Candidates
pub mod Queue
pub mod Resolve
pub mod History
pub mod Transition
pub mod Exclusive
pub mod Approval
pub mod Details
pub mod Outcome
pub mod Ptv
pub mod Decide
pub mod Reach
pub mod Requested
pub mod Eligible
pub mod Request
pub mod Commented
pub mod Waiting
pub mod SignOff
pub mod Verify
pub mod Confirm
pub mod StoreSafety
pub mod ReviewerSafety
pub mod QueueSafety
pub mod ResolveSafety
pub mod Samples
mod Tests
mod MoreTests
