-- ===== src/Listing.antt =====
-- internal/listing: the gear listings, one child for each file.
pub mod Repository
pub mod Feed
pub mod Service
pub mod Handler
