-- ===== src/Portal.antt =====
-- The customer portal (customer-portal/app).
pub mod Numbers
pub mod Billing
mod Examples
