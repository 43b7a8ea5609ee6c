-- ===== src/Database.antt =====
-- internal/database: the tables and the store's methods, one module for each file of the package.
pub mod World
pub mod Rows
pub mod Jobs
pub mod Memories
pub mod Runtime
pub mod Trackers
pub mod Conversations
pub mod Keeps
pub mod Status
pub mod Subscriptions
pub mod Users
pub mod Payments
pub mod Usage
pub mod DesktopCodes
pub mod ApiKeys
pub mod WhatsApp
