-- ===== src/Scripts.antt =====
-- scripts/script: the program that builds the binaries and the images.
pub mod Bins
pub mod Build
pub mod Zip
pub mod Docker
pub mod Format
pub mod E2e
