-- ===== src/Std.antt =====
-- What the program uses of Go's standard library: CRC-32C, UTF-8, hexadecimal digits, and the
-- interfaces of encoding/json, unicode and crypto/sha256.
pub mod Crc32
pub mod Hex
pub mod Json
pub mod Sha256
pub mod Unicode
pub mod Utf8
