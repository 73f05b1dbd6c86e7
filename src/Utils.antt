-- ===== src/Utils.antt =====
-- ui/v1/src/lib/utils: what the pages do with links.
pub mod Sort
pub mod Urls
pub mod Links
pub mod Colors
pub mod Images
pub mod SignIn
mod Tests
