-- ===== src/Sync.antt =====
-- The synchronisation of files: the manifest that a client sends, web/convex/syncManifest.ts.
pub mod Manifest
pub mod Parsing
pub mod Normal
mod Examples
