-- ===== src/Tests.antt =====
-- The theorems at concrete inputs.
mod Sample
mod Codecs
mod Tokens
mod Accounts
mod Billing
mod Handlers
mod Login
mod WhatsApp
mod Jobs
mod Chat
