-- ===== src/Sync.antt =====
-- `SyncManager` of frontend/services/syncManager.js: the socket, and the steps of the manager.
mod States
mod Queue
mod Messages
mod Socket
mod Steps
pub mod Stuck
pub mod Single
pub mod FastForward
pub mod Delivery
pub mod Acks
pub use States.*
unfoldable pub use Queue.*
unfoldable pub use Messages.*
unfoldable pub use Socket.*
