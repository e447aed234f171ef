-- ===== src/Ecommerce.antt =====
-- The ecommerce app: the cart, the client of Saleor, the catalogue, and the pages of the shop.
pub mod Cart
pub mod SaleorClient
pub mod Catalogue
pub mod Quantity
pub mod Storefront
