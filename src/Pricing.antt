-- ===== src/Pricing.antt =====
-- service/pricingcatalog: what a product variant costs. The catalog is kept by `Catalog`, the data
-- and the exact arithmetic are passed on from here.
mod Parts
mod Entry
pub mod Amount
pub mod Catalog
pub mod Tariff
mod Tests
unfoldable pub use Parts.*
unfoldable pub use Entry.*
