-- ===== src/Sdk/Models.antt =====
-- ui/v1/src/lib/sdk/models: the data that the client and the server exchange, a module for each.
pub mod AbuseReportDto
pub mod AdminOverviewDto
pub mod AdminSettingsDto
pub mod AdminUserDto
pub mod BackupFileDto
pub mod BackupSummaryDto
pub mod BackupsDto
pub mod BlockUserRequest
pub mod BookmarkDto
pub mod BookmarkMetadataDto
pub mod ChangePasswordRequest
pub mod CollectionAccessDto
pub mod CollectionAccessMemberDto
pub mod CollectionDto
pub mod CollectionNewsDto
pub mod CollectionShareDto
pub mod CollectionVisibilityDto
pub mod CompleteSetupRequest
pub mod CreateBookmarkDto
pub mod CreateCollectionDto
pub mod CreateInviteRequest
pub mod CreateReportRequest
pub mod CreateSpaceDto
pub mod DashboardDto
pub mod DashboardSectionDto
pub mod DashboardSectionTypeEnum
pub mod DeleteAccountRequest
pub mod DiscoverableSpaceDto
pub mod DisplayNameDto
pub mod FetchMetadataRequest
pub mod HealthDto
pub mod ImportResultDto
pub mod InstanceDto
pub mod InviteDto
pub mod InvitePreviewDto
pub mod InviteRoleEnum
pub mod JoinRoleEnum
pub mod LegalPageDto
pub mod LoginRequest
pub mod LoginResponse
pub mod ModelError
pub mod MoveCollectionDto
pub mod PasswordResetDto
pub mod PasswordResetPreviewDto
pub mod ReactionDto
pub mod RegisterRequest
pub mod ReportCategory
pub mod RequestPasswordResetRequest
pub mod ResetPasswordRequest
pub mod ResolveReportRequest
pub mod SetPinDto
pub mod SetReactionDto
pub mod SharedBookmarkDto
pub mod SharedCollectionDto
pub mod SharedCollectionRefDto
pub mod SpaceBarDto
pub mod SpaceBarItemDto
pub mod SpaceDto
pub mod SpaceMemberDto
pub mod SpaceMemberRoleEnum
pub mod SpacePermissionEnum
pub mod StartSpaceDto
pub mod TagCountDto
pub mod TrashDto
pub mod TrashSelectionDto
pub mod TrashedBookmarkDto
pub mod TrashedCollectionDto
pub mod UnlockDto
pub mod UnlockRequest
pub mod UpdateBookmarkDto
pub mod UpdateCollectionAccessDto
pub mod UpdateCollectionDto
pub mod UpdateDashboardDto
pub mod UpdateDashboardSectionDto
pub mod UpdateSpaceDto
pub mod UpdateSpaceMemberDto
pub mod UserDto
