-- ===== src/Codec.antt =====
-- What the program uses of Python's `str` and `bytes`: `str.encode("utf-8")`, `bytes.hex`,
-- `bytes.fromhex`, and the handling of a prefix such as "blake3:".
pub mod Hex
pub mod Utf8
pub mod Prefix
