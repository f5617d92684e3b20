-- ===== src/Encoding.antt =====
-- What the sources use of Go's strings, strconv and encoding/base64. A string is the list of its bytes.
pub mod Text
pub mod Decimal
pub mod Base64
pub mod Utf8
