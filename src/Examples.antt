-- ===== src/Examples.antt =====
-- Concrete games, and what the theorems say of them.
pub mod Data
pub mod Logs
pub mod Cells
pub mod Runners
pub mod Forms
pub mod Scoresheets
pub mod Queues
pub mod Statistics
pub mod Visitors
pub mod Searches
pub mod Lineups
pub mod Substitutes
pub mod Feeds
pub mod Boards
pub mod Squads
pub mod Backups
