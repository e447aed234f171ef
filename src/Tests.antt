-- ===== src/Tests.antt =====
-- Concrete caches, tables, tokens and carts, and the theorems at them.
pub mod Caches
pub mod Shared
pub mod Carts
pub mod Tokens
pub mod Payments
pub mod Checkouts
pub mod Webhooks
pub mod Network
pub mod Catalogue
pub mod Settling
pub mod Api
pub mod Shop
pub mod Members
pub mod Operations
