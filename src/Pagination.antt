-- ===== src/Pagination.antt =====
-- apps/api/src/shared/pagination: a page of rows, and the lists that are read page by page
pub mod Page
pub mod Orders
pub mod Listing
pub mod Walk
pub mod Feeds
