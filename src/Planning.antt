-- ===== src/Planning.antt =====
-- backend/src/planning.rs: the plan of a document. Its children hold the levels of the reading
-- tree, the shares of a chapter, the check of an outline, the branches that the planner is shown,
-- and the chapters of a large source with their requests.
pub mod Levels
pub mod Shares
pub mod Outlines
pub mod Branches
pub mod Chapters
pub mod Batches
pub mod Generated
mod Tests
