-- ===== src/Handlers.antt =====
-- The HTTP handlers of internal/handlers, on the store of Database.
pub mod Reply
pub mod Access
pub mod Accounts
pub mod Calendar
pub mod Billing
pub mod Settings
pub mod Extraction
pub mod Limits
pub mod Background
pub mod Chat
pub mod Oauth
pub mod Prompt
pub mod Status
pub mod Content
pub mod WhatsApp
