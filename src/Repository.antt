-- ===== src/Repository.antt =====
-- internal/repository and internal/repository/postgres: the statements on the two tables.
pub mod Sql
pub mod Notifications
pub mod Batches
pub mod Tables
pub mod Distinct
pub mod Lifecycle
pub mod Templates
pub mod Listing
pub mod Cancelling
pub mod Found
pub mod Rows
pub mod Cursors
