-- ===== src/Stats.antt =====
-- `StatsEngine` of frontend/game/statsEngine.js: the lines of players, pitchers and innings of a
-- game, and their totals over many games.
mod Lines
mod Plays
mod Innings
mod Scores
mod Games
mod Totals
mod Changes
pub mod Consistency
pub mod Balance
pub mod Precalculated
pub use Lines.*
unfoldable pub use Plays.*
unfoldable pub use Innings.*
unfoldable pub use Scores.*
unfoldable pub use Games.*
unfoldable pub use Totals.*
