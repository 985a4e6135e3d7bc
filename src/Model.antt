-- ===== src/Model.antt =====
-- The rows and enumerations of the model.go files, one child for each package of internal/.
pub mod Booking
pub mod Availability
pub mod Listing
pub mod User
pub mod Review
pub mod Category
pub mod Event
