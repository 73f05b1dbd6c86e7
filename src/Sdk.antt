-- ===== src/Sdk.antt =====
-- ui/v1/src/lib/sdk: the client of the HTTP API.
pub mod Value
pub mod Codec
pub mod Models
pub mod Runtime
pub mod Samples
pub mod Apis
mod Tests
