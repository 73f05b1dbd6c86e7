-- ===== src/Sdk/Apis.antt =====
-- ui/v1/src/lib/sdk/apis: the operations of the API, a module for each class.
pub mod Operation
pub mod AdminApi
pub mod AppApi
pub mod AuthenticationApi
pub mod BookmarkApi
pub mod CollectionApi
pub mod DashboardApi
pub mod ImageApi
pub mod InviteApi
pub mod ShareApi
pub mod SpaceApi
pub mod UserApi
pub mod All
pub mod Templates
