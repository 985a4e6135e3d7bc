-- ===== src/Codec.antt =====
-- How the code writes and reads what it signs and stores: strconv and fmt for decimal numbers, the raw
-- alphabets of encoding/base64, and strings.SplitN. A text is the list of its bytes.
pub mod Split
pub mod Decimal
pub mod Base64
pub mod Hex
pub mod Scan
