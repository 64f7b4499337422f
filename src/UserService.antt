-- ===== src/UserService.antt =====
-- user/user_service.hpp and user/user_service.cpp: the service that keeps the state of a user's
-- contacts: which of them are connected, and since when nothing was heard of them.
pub mod State
pub mod Pings
pub mod Turns
pub mod Timed
pub mod Changed
pub mod Heard
pub mod Sent
pub mod Loop
pub mod Runs
pub mod Farewell
pub mod Sending
pub mod Ticks
pub mod Aging
mod Tests
