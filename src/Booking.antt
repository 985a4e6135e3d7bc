-- ===== src/Booking.antt =====
-- internal/booking: prices, the repository, the booking transaction, the service and its handler.
pub mod Pricing
pub mod Repository
pub mod Create
pub mod Service
pub mod History
pub mod Handler
pub mod Dispute
pub mod Response
