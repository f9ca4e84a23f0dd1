-- ===== src/Billing.antt =====
-- The hosted billing, web/convex/cloud: the ledger of credits, the price of a usage, its settlement,
-- live billing, checkouts and redeemable codes.
pub mod Types
pub mod Credits
pub mod Pricing
pub mod Settle
pub mod CodeArgs
pub mod Codes
pub mod Reservations
pub mod Checkout
pub mod Live
pub mod Ledger
mod Examples
