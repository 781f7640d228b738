-- ===== src/Pages.antt =====
-- The other pages of web/src/pages, one module per page.
pub mod GuidedStart
pub mod Fetch
pub mod Environments
pub mod Users
pub mod PlanReview
pub mod Catalog
pub mod Templates
pub mod Providers
pub mod Login
pub mod Jobs
pub mod Dashboard
pub mod Audit
pub mod JobDetail
