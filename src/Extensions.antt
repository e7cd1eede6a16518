-- ===== src/Extensions.antt =====
-- src/extensions: installation of prebuilt extension archives.
pub mod Name
pub mod Layout
pub mod Digest
pub mod Manifest
pub mod Install
pub mod WriteFile
pub mod Config
pub mod Http
pub mod Archive
pub mod Pipeline
