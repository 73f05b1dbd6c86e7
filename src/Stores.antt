-- ===== src/Stores.antt =====
-- ui/v1/src/lib/stores: the state that the pages of the client share.
pub mod Lock
pub mod Preferences
pub mod Spaces
pub mod Dashboard
pub mod Toast
mod Tests
