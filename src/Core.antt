-- ===== src/Core.antt =====
-- crates/tracedb-core: the types that the other crates share.
pub mod Error
pub mod Types
pub mod Features
pub mod Schema
pub mod Sound
pub mod Artifact
pub mod Envelope
pub mod SampleCodec
mod Tests
