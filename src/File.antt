-- ===== src/File.antt =====
-- src/file.c: hashing, generating, listing, opening, saving and verifying torrent files.
pub mod Chunks
pub mod Hash
pub mod Verify
pub mod Open
pub mod Generate
pub mod Listing
