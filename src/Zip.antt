-- ===== src/Zip.antt =====
-- web/src/lib/zip-encryption.ts: detection of an encrypted backup archive and verification of its
-- password from a few byte ranges of the file. `View` has the file and its byte ranges, `Detect`
-- and `Verify` the two exported operations; the other modules prove their properties.
pub mod View
pub mod Detect
pub mod Verify
pub mod Bounds
pub mod Eocd
pub mod Directory
pub mod Slices
pub mod Password
pub mod Compared
mod Witnesses
pub mod Total
