-- ===== src/Utility.antt =====
-- path-oram/src/utility.cpp.
pub mod Random
pub mod Shuffle
pub mod Cipher
pub mod Files
pub mod Keys
pub mod Text
