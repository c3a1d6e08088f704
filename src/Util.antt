-- ===== src/Util.antt =====
-- modules/util: the byte buffer, the serializer, and codes and checksums of bytes.
pub mod Buffer
pub mod ScalableInteger
pub mod Serializer
pub mod Base64
pub mod Checksum
pub mod Crc
pub mod Strings
