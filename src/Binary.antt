-- ===== src/Binary.antt =====
-- src/binary.cpp: the binary cache of a manifest, `.catalyst.bin`, on Linux and a little-endian
-- machine, where a `uint64_t` is eight bytes with the lowest first.
pub mod Format
pub mod Reader
pub mod Writer
pub mod Strings
pub mod Items
pub mod RoundTrip
pub mod Size
pub mod Reload
pub mod Cache
pub mod Malformed
