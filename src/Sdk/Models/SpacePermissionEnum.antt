-- ===== src/Sdk/Models/SpacePermissionEnum.antt =====
-- ui/v1/src/lib/sdk/models/SpacePermissionEnum.ts
use ragbag.Common.{◌≡◌, refl, String, Bool, true, false, Option, none, some, ◌===◌, ◌||◌}
use ragbag.Sdk.Value.{Value, undefined, text, Dates, wire}
use ragbag.Sdk.Codec.{optional, or_undefined, RoundTrips}

pub data SpacePermissionEnum : Type 0 where
  read edit_space create_collections edit_collections delete_collections create_bookmarks
        edit_bookmarks delete_bookmarks delete_space manage_members import_export :
      SpacePermissionEnum

abbrev pub space_permission_enum_text : SpacePermissionEnum → String
space_permission_enum_text read = "READ"
space_permission_enum_text edit_space = "EDIT_SPACE"
space_permission_enum_text create_collections = "CREATE_COLLECTIONS"
space_permission_enum_text edit_collections = "EDIT_COLLECTIONS"
space_permission_enum_text delete_collections = "DELETE_COLLECTIONS"
space_permission_enum_text create_bookmarks = "CREATE_BOOKMARKS"
space_permission_enum_text edit_bookmarks = "EDIT_BOOKMARKS"
space_permission_enum_text delete_bookmarks = "DELETE_BOOKMARKS"
space_permission_enum_text delete_space = "DELETE_SPACE"
space_permission_enum_text manage_members = "MANAGE_MEMBERS"
space_permission_enum_text import_export = "IMPORT_EXPORT"

abbrev pub space_permission_enum_value : SpacePermissionEnum → Value
space_permission_enum_value e = text (space_permission_enum_text e)

-- `as SpacePermissionEnum` changes nothing.
unfoldable pub space_permission_enum_from_json : Value → Option Value
space_permission_enum_from_json json = some json

unfoldable pub space_permission_enum_to_json : Value → Option Value
space_permission_enum_to_json v = some v

-- The loop over the values of the enumeration, compared by `===`.
unfoldable pub instance_of_space_permission_enum : Value → Bool
instance_of_space_permission_enum (text s) =
    "READ" === s
    || "EDIT_SPACE" === s
    || "CREATE_COLLECTIONS" === s
    || "EDIT_COLLECTIONS" === s
    || "DELETE_COLLECTIONS" === s
    || "CREATE_BOOKMARKS" === s
    || "EDIT_BOOKMARKS" === s
    || "DELETE_BOOKMARKS" === s
    || "DELETE_SPACE" === s
    || "MANAGE_MEMBERS" === s
    || "IMPORT_EXPORT" === s
instance_of_space_permission_enum _ = false

module _ (dates : Dates) where
  pub space_permission_enum-trips :
      (e : SpacePermissionEnum)
      → RoundTrips dates space_permission_enum_to_json space_permission_enum_from_json
          (space_permission_enum_value e)
  unfolding space_permission_enum_to_json space_permission_enum_from_json wire
  space_permission_enum-trips e = (space_permission_enum_value e, refl, refl)

  pub optional_space_permission_enum-trips :
      (o : Option SpacePermissionEnum)
      → RoundTrips dates space_permission_enum_to_json
          (optional space_permission_enum_from_json)
          (or_undefined space_permission_enum_value o)
  unfolding space_permission_enum_to_json space_permission_enum_from_json wire
  optional_space_permission_enum-trips none = (undefined, refl, refl)
  optional_space_permission_enum-trips (some e) = (space_permission_enum_value e, refl, refl)

pub instance_of_space_permission_enum-value :
    (e : SpacePermissionEnum)
    → instance_of_space_permission_enum (space_permission_enum_value e) ≡ true
unfolding instance_of_space_permission_enum
instance_of_space_permission_enum-value read = refl
instance_of_space_permission_enum-value edit_space = refl
instance_of_space_permission_enum-value create_collections = refl
instance_of_space_permission_enum-value edit_collections = refl
instance_of_space_permission_enum-value delete_collections = refl
instance_of_space_permission_enum-value create_bookmarks = refl
instance_of_space_permission_enum-value edit_bookmarks = refl
instance_of_space_permission_enum-value delete_bookmarks = refl
instance_of_space_permission_enum-value delete_space = refl
instance_of_space_permission_enum-value manage_members = refl
instance_of_space_permission_enum-value import_export = refl
