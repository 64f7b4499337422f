-- ===== src/Locator.antt =====
-- firelocator/firelocator.cpp: the server at which users register, and which introduces two users to
-- each other.
pub mod Users
pub mod Server
pub mod Updates
pub mod Directory
pub mod Introduce
mod Tests
