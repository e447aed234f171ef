-- ===== src/Api.antt =====
-- The api app: access and refresh tokens, the reading of the header that carries them, the endpoints
-- for tokens, carts, checkouts and orders, and the bodies they answer with.
pub mod CartViews
pub mod Serializers
pub mod Checkout
pub mod Tokens
pub mod Authentication
pub mod TokenView
pub mod Orders
pub mod Errors
