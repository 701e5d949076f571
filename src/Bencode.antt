-- ===== src/Bencode.antt =====
-- backend/internal/bencode/bencode.go: the bencode encoder and decoder, and info_hash.
pub mod Value
pub mod Decimal
pub mod Encode
pub mod Order
pub mod Emit
pub mod Canonical
pub mod Lexical
pub mod Reads
pub mod MapOrder
pub mod Decoded
pub mod RoundTrip
pub mod Torrent
pub mod Parse
pub mod Total
pub mod Scenarios
pub mod Steps
