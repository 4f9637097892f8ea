-- ===== src/Codec.antt =====
-- base/byte_codec.h and base/byte_codec.cc: DataReader and DataWriter over a byte buffer, with the
-- byte order of base/net_endian.h. A byte is a number below 256.
pub mod Endian
pub mod Reader
pub mod Writer
pub mod Append
pub mod Chain
pub mod Consuming
pub mod Advance
pub mod Cases
pub mod VarInt62
pub mod Fixed
pub mod Partial
pub mod Groups
pub mod VarInt
pub mod Range
pub mod RoundTrip
