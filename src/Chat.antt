-- ===== src/Chat.antt =====
-- The websocket chat server (lemmy_websocket/src).
pub mod Server
pub mod Rooms
pub mod Send
pub mod Handlers
pub mod Placement
pub mod Joins
pub mod Delivery
pub mod Broadcasts
pub mod Privacy
pub mod Captcha
pub mod Exactness
pub mod Standard
pub mod Isolation
mod Tests
pub mod Seats
pub mod Refinement
