-- ===== src/Game.antt =====
-- The data model of a game: codes, events, state and actions (frontend/constants.js and the shapes
-- that frontend/reducer.js reads and writes).
mod Codes
mod Events
mod States
mod Actions
mod Keys
pub mod KeyLaws
pub use Codes.*
pub use Events.*
pub use States.*
pub use Actions.*
unfoldable pub use Keys.*
