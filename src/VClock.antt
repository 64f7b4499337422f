-- ===== src/VClock.antt =====
-- util/vclock.hpp and util/vclock.cpp: vector clocks, which order the edits of shared documents.
pub mod Clock
pub mod Merge
pub mod Compare
pub mod Tracked
pub mod Convert
mod Tests
