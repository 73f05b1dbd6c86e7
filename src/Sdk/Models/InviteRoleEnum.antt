-- ===== src/Sdk/Models/InviteRoleEnum.antt =====
-- ui/v1/src/lib/sdk/models/InviteRoleEnum.ts
use ragbag.Common.{◌≡◌, refl, String, Bool, true, false, Option, none, some, ◌===◌, ◌||◌}
use ragbag.Sdk.Value.{Value, undefined, text, Dates, wire}
use ragbag.Sdk.Codec.{optional, or_undefined, RoundTrips}

pub data InviteRoleEnum : Type 0 where
  admin contributor viewer : InviteRoleEnum

abbrev pub invite_role_enum_text : InviteRoleEnum → String
invite_role_enum_text admin = "ADMIN"
invite_role_enum_text contributor = "CONTRIBUTOR"
invite_role_enum_text viewer = "VIEWER"

abbrev pub invite_role_enum_value : InviteRoleEnum → Value
invite_role_enum_value e = text (invite_role_enum_text e)

-- `as InviteRoleEnum` changes nothing.
unfoldable pub invite_role_enum_from_json : Value → Option Value
invite_role_enum_from_json json = some json

unfoldable pub invite_role_enum_to_json : Value → Option Value
invite_role_enum_to_json v = some v

-- The loop over the values of the enumeration, compared by `===`.
unfoldable pub instance_of_invite_role_enum : Value → Bool
instance_of_invite_role_enum (text s) = "ADMIN" === s || "CONTRIBUTOR" === s || "VIEWER" === s
instance_of_invite_role_enum _ = false

module _ (dates : Dates) where
  pub invite_role_enum-trips :
      (e : InviteRoleEnum)
      → RoundTrips dates invite_role_enum_to_json invite_role_enum_from_json
          (invite_role_enum_value e)
  unfolding invite_role_enum_to_json invite_role_enum_from_json wire
  invite_role_enum-trips e = (invite_role_enum_value e, refl, refl)

  pub optional_invite_role_enum-trips :
      (o : Option InviteRoleEnum)
      → RoundTrips dates invite_role_enum_to_json
          (optional invite_role_enum_from_json)
          (or_undefined invite_role_enum_value o)
  unfolding invite_role_enum_to_json invite_role_enum_from_json wire
  optional_invite_role_enum-trips none = (undefined, refl, refl)
  optional_invite_role_enum-trips (some e) = (invite_role_enum_value e, refl, refl)

pub instance_of_invite_role_enum-value :
    (e : InviteRoleEnum) → instance_of_invite_role_enum (invite_role_enum_value e) ≡ true
unfolding instance_of_invite_role_enum
instance_of_invite_role_enum-value admin = refl
instance_of_invite_role_enum-value contributor = refl
instance_of_invite_role_enum-value viewer = refl
