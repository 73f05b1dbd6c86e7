-- ===== src/Sdk/Models/SpaceMemberRoleEnum.antt =====
-- ui/v1/src/lib/sdk/models/SpaceMemberRoleEnum.ts
use ragbag.Common.{◌≡◌, refl, String, Bool, true, false, Option, none, some, ◌===◌, ◌||◌}
use ragbag.Sdk.Value.{Value, undefined, text, Dates, wire}
use ragbag.Sdk.Codec.{optional, or_undefined, RoundTrips}

pub data SpaceMemberRoleEnum : Type 0 where
  owner admin contributor viewer : SpaceMemberRoleEnum

abbrev pub space_member_role_enum_text : SpaceMemberRoleEnum → String
space_member_role_enum_text owner = "OWNER"
space_member_role_enum_text admin = "ADMIN"
space_member_role_enum_text contributor = "CONTRIBUTOR"
space_member_role_enum_text viewer = "VIEWER"

abbrev pub space_member_role_enum_value : SpaceMemberRoleEnum → Value
space_member_role_enum_value e = text (space_member_role_enum_text e)

-- `as SpaceMemberRoleEnum` changes nothing.
unfoldable pub space_member_role_enum_from_json : Value → Option Value
space_member_role_enum_from_json json = some json

unfoldable pub space_member_role_enum_to_json : Value → Option Value
space_member_role_enum_to_json v = some v

-- The loop over the values of the enumeration, compared by `===`.
unfoldable pub instance_of_space_member_role_enum : Value → Bool
instance_of_space_member_role_enum (text s) =
    "OWNER" === s || "ADMIN" === s || "CONTRIBUTOR" === s || "VIEWER" === s
instance_of_space_member_role_enum _ = false

module _ (dates : Dates) where
  pub space_member_role_enum-trips :
      (e : SpaceMemberRoleEnum)
      → RoundTrips dates space_member_role_enum_to_json space_member_role_enum_from_json
          (space_member_role_enum_value e)
  unfolding space_member_role_enum_to_json space_member_role_enum_from_json wire
  space_member_role_enum-trips e = (space_member_role_enum_value e, refl, refl)

  pub optional_space_member_role_enum-trips :
      (o : Option SpaceMemberRoleEnum)
      → RoundTrips dates space_member_role_enum_to_json
          (optional space_member_role_enum_from_json)
          (or_undefined space_member_role_enum_value o)
  unfolding space_member_role_enum_to_json space_member_role_enum_from_json wire
  optional_space_member_role_enum-trips none = (undefined, refl, refl)
  optional_space_member_role_enum-trips (some e) = (space_member_role_enum_value e, refl, refl)

pub instance_of_space_member_role_enum-value :
    (e : SpaceMemberRoleEnum)
    → instance_of_space_member_role_enum (space_member_role_enum_value e) ≡ true
unfolding instance_of_space_member_role_enum
instance_of_space_member_role_enum-value owner = refl
instance_of_space_member_role_enum-value admin = refl
instance_of_space_member_role_enum-value contributor = refl
instance_of_space_member_role_enum-value viewer = refl
