-- ===== src/Agents.antt =====
-- trpcservice/agent: agent applications, their revisions and their repository.
pub mod Apps
pub mod Drafts
pub mod Revisions
pub mod Repository
pub mod Changes
pub mod Operations
pub mod Life
pub mod Snapshots
