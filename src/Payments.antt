-- ===== src/Payments.antt =====
-- The payments app: orders, the webhook inbox, the checkout journal.
pub mod Models
pub mod Db
pub mod Signature
pub mod Inbox
pub mod Tasks
pub mod SaleorCheckout
pub mod Rows
pub mod Checkout
pub mod Reconcile
pub mod System
pub mod CheckoutView
