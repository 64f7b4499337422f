-- ===== src/Mencode.antt =====
-- util/mencode.hpp and util/mencode.cpp: the self-describing binary format of all messages.
pub mod Value
pub mod Lexical
pub mod Encode
pub mod Stream
pub mod Decode
pub mod Reads
pub mod Encodable
pub mod Rounds
pub mod RoundTrip
pub mod Decimal
pub mod Within
pub mod Fuel
pub mod Faults
mod Tests
