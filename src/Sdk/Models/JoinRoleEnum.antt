-- ===== src/Sdk/Models/JoinRoleEnum.antt =====
-- ui/v1/src/lib/sdk/models/JoinRoleEnum.ts
use ragbag.Common.{◌≡◌, refl, String, Bool, true, false, Option, none, some, ◌===◌, ◌||◌}
use ragbag.Sdk.Value.{Value, undefined, text, Dates, wire}
use ragbag.Sdk.Codec.{optional, or_undefined, RoundTrips}

pub data JoinRoleEnum : Type 0 where
  contributor viewer : JoinRoleEnum

abbrev pub join_role_enum_text : JoinRoleEnum → String
join_role_enum_text contributor = "CONTRIBUTOR"
join_role_enum_text viewer = "VIEWER"

abbrev pub join_role_enum_value : JoinRoleEnum → Value
join_role_enum_value e = text (join_role_enum_text e)

-- `as JoinRoleEnum` changes nothing.
unfoldable pub join_role_enum_from_json : Value → Option Value
join_role_enum_from_json json = some json

unfoldable pub join_role_enum_to_json : Value → Option Value
join_role_enum_to_json v = some v

-- The loop over the values of the enumeration, compared by `===`.
unfoldable pub instance_of_join_role_enum : Value → Bool
instance_of_join_role_enum (text s) = "CONTRIBUTOR" === s || "VIEWER" === s
instance_of_join_role_enum _ = false

module _ (dates : Dates) where
  pub join_role_enum-trips :
      (e : JoinRoleEnum)
      → RoundTrips dates join_role_enum_to_json join_role_enum_from_json (join_role_enum_value e)
  unfolding join_role_enum_to_json join_role_enum_from_json wire
  join_role_enum-trips e = (join_role_enum_value e, refl, refl)

  pub optional_join_role_enum-trips :
      (o : Option JoinRoleEnum)
      → RoundTrips dates join_role_enum_to_json
          (optional join_role_enum_from_json)
          (or_undefined join_role_enum_value o)
  unfolding join_role_enum_to_json join_role_enum_from_json wire
  optional_join_role_enum-trips none = (undefined, refl, refl)
  optional_join_role_enum-trips (some e) = (join_role_enum_value e, refl, refl)

pub instance_of_join_role_enum-value :
    (e : JoinRoleEnum) → instance_of_join_role_enum (join_role_enum_value e) ≡ true
unfolding instance_of_join_role_enum
instance_of_join_role_enum-value contributor = refl
instance_of_join_role_enum-value viewer = refl
