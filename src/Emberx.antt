-- ===== src/Emberx.antt =====
-- emberx/: identifiers on events, and the codecs of command results.
pub mod Metadata
pub mod Codec
mod Tests
