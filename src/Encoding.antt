-- ===== src/Encoding.antt =====
-- The codecs of Go's standard library that the program uses: encoding/hex, encoding/base64 and
-- encoding/binary.
pub mod Hex
pub mod Base64
pub mod Binary
pub mod Json
