-- ===== src/User.antt =====
-- user/user.hpp and user/user.cpp: the contacts of a user.
pub mod Contacts
pub mod Listed
pub mod Refines
mod Tests
