-- ===== src/Portal/Billing.antt =====
-- The billing reports (customer-portal/app/billing_runner.py). A `BillingGenerationError` is an
-- exception with its text; the database's rows are lists.
pub mod Prices
pub mod Fees
pub mod ClusterLines
pub mod Usage
pub mod Search
pub mod Contracts
pub mod Measures
pub mod Query
pub mod Products
pub mod Csv
