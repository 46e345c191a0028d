-- ===== src/Proposals/Resolve.antt =====
-- Resolving a proposal and confirming its manual publishing (src/mcp/proposalQueue.ts).
mod View
mod Actions
mod Publish
unfoldable pub use View.*
unfoldable pub use Actions.*
unfoldable pub use Publish.*
