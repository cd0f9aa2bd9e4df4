-- ===== src/Bencode.antt =====
-- src/bencode: values in bencoding, printed (bencode_value.hpp, bencode_value.cpp) and parsed
-- (bencode_parser.hpp, bencode_parser.cpp).
pub mod Value
pub mod Parser
pub mod Number
pub mod Cursor
pub mod Order
pub mod Steps
pub mod RoundTrip
pub mod Outcome
pub mod Termination
pub mod Overread
mod Examples
