-- ===== src/Security.antt =====
-- security/security.cpp, security/security_library.hpp and security/security_library.cpp: keys,
-- secrets, and the encrypted channels between peers.
pub mod Botan
pub mod Rsa
pub mod Secret
pub mod Channels
pub mod Paired
pub mod Handshake
pub mod Toy
mod Tests
