-- ===== src/Reviews.antt =====
-- Review campaigns: the store (src/reviews/reviewService.ts) and the operations on campaigns and
-- items (src/reviews/reviewCampaigns.ts).
pub mod Store
pub mod ItemStore
pub mod Campaigns
pub mod Manage
pub mod Items
pub mod Steps
pub mod Decided
pub mod Fitting
pub mod Completed
pub mod Progress
pub mod Selected
pub mod Assigned
pub mod Started
pub mod Closed
pub mod Linked
pub mod Linkable
pub mod Attached
mod Tests
