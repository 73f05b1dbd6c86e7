-- ===== src/Sdk/Apis/All.antt =====
-- The operations of ui/v1/src/lib/sdk/apis, in the order of the files.
use ragbag.Common.{List, ◌++◌}
use ragbag.Sdk.Value.{Dates}
use ragbag.Sdk.Apis.Operation.{Operation}
use ragbag.Sdk.Apis.AdminApi.{admin_api_operations}
use ragbag.Sdk.Apis.AppApi.{app_api_operations}
use ragbag.Sdk.Apis.AuthenticationApi.{authentication_api_operations}
use ragbag.Sdk.Apis.BookmarkApi.{bookmark_api_operations}
use ragbag.Sdk.Apis.CollectionApi.{collection_api_operations}
use ragbag.Sdk.Apis.DashboardApi.{dashboard_api_operations}
use ragbag.Sdk.Apis.ImageApi.{image_api_operations}
use ragbag.Sdk.Apis.InviteApi.{invite_api_operations}
use ragbag.Sdk.Apis.ShareApi.{share_api_operations}
use ragbag.Sdk.Apis.SpaceApi.{space_api_operations}
use ragbag.Sdk.Apis.UserApi.{user_api_operations}

abbrev pub operations : Dates → List Operation
operations dates =
    admin_api_operations dates
    ++ app_api_operations dates
    ++ authentication_api_operations dates
    ++ bookmark_api_operations dates
    ++ collection_api_operations dates
    ++ dashboard_api_operations dates
    ++ image_api_operations dates
    ++ invite_api_operations dates
    ++ share_api_operations dates
    ++ space_api_operations dates
    ++ user_api_operations dates
